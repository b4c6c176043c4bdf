-- ===== src/Tests/ChatOps.antt =====
-- pkg/chatops at a pull request of one user, with the commands of another who may write to the repository.
use cicd_operator.Base.{
  nat_beq, nat_eq, All, Str, str, str_eq, join, Map, ℕ, ◌≡◌, refl, Bool, true, Option, none, some,
  List, [], ◌∷◌, map, arith,
}
use cicd_operator.Api.{IntegrationConfig, github}
use cicd_operator.Git.{
  Webhook, IssueComment, PullRequest, open_state, opened, User, Commitish, issue_comment,
}
use cicd_operator.GitClient.{ok, Server}
use cicd_operator.ChatOps.{Command, Handler, extract_commands, handle_comment, is_command}
use cicd_operator.ChatOps.Extract.{
  Line, said, plain, print_line, IsLine, IsType, said_in, extract_commands-print,
}
use cicd_operator.ChatOps.Approve.{check_approval, sort_comments}
use cicd_operator.ChatOps.Approve.Decision.{Decided, check_approval-Decided}
use cicd_operator.ChatOps.Commands.{handlers}
use cicd_operator.ChatOps.Permissions.{Permitted}
use cicd_operator.ChatOps.Permissions.Comment.{handle_comment-Permitted}

abbrev author : User
author = record { id = 1; name = str "kim"; email = [] }

abbrev reviewer : User
reviewer = record { id = 2; name = str "lee"; email = [] }

abbrev topic : PullRequest
topic =
    let base : Commitish = record { ref = str "refs/heads/main"; sha = str "aaaaa" } in
    let head : Commitish = record { ref = str "refs/heads/topic"; sha = str "bbbbb" } in
    record {
      id = 7;
      title = str "t";
      state = open_state;
      action = opened;
      author = author;
      url = [];
      base = base;
      head = head;
      labels = [];
      mergeable = true;
      label_changed = [];
    }

abbrev comment_at : ℕ → Str → IssueComment
comment_at time body = record {
  body = body;
  created_at = time;
  author = reviewer;
  pull = some topic;
  review_state = none;
}

abbrev approval : IssueComment
approval = comment_at 5 (str "/approve")

abbrev webhook : Webhook
webhook = record {
  event_type = issue_comment;
  repo = record { name = str "r"; url = [] };
  sender = reviewer;
  push_event = none;
  pull = none;
  comment = some approval;
}

abbrev pub config : IntegrationConfig
config = record {
  name = str "config";
  namespace = str "ci";
  git = record {
    type = github;
    repository = str "r";
    api_url = [];
    token = some (record { value = str "t"; value_from = none });
  };
  workspaces = [];
  jobs = record { pre_submit_jobs = []; post_submit_jobs = []; periodic_jobs = [] };
  merge_config = none;
  timeout = none;
  param_config = none;
}

abbrev pub server : Server
server = record {
  client = ok tt;
  refuses = λ r. none;
  can_user_write_to_repo = λ u. ok (nat_beq u.id 2);
  list_labels = λ id. ok [];
  list_comments = λ id. ok [];
}

abbrev no_pattern : Str → Option (Str → Bool)
no_pattern p = none

handle_comment-Permitted_example :
    All
      (Permitted server (str "hold") reviewer topic)
      (handle_comment
        (handlers server (str "hold") no_pattern 1 (str "abcdefgh"))
        webhook
        config
        []).1
handle_comment-Permitted_example =
    handle_comment-Permitted server (str "hold") webhook config approval topic refl refl no_pattern
      1 (str "abcdefgh")

abbrev canceled : IssueComment
canceled = comment_at 9 (str "/approve cancel")

check_approval-Decided_example :
    Decided (approval ∷ canceled ∷ []) (check_approval (sort_comments (approval ∷ canceled ∷ [])))
check_approval-Decided_example = check_approval-Decided (approval ∷ canceled ∷ [])

abbrev test_unit : Command
test_unit = record { type = str "test"; args = str "unit" ∷ [] }

abbrev lines : List Line
lines = plain (str "Please") ∷ said test_unit ∷ []

lines-IsLine : All IsLine lines
unfolding IsLine IsType is_command join
lines-IsLine = ground arith

extract_commands-print_example :
    extract_commands (join (10 ∷ []) (map print_line lines)) ≡ said_in lines
extract_commands-print_example = extract_commands-print lines lines-IsLine

abbrev table : Map Str Handler
table = handlers server (str "hold") no_pattern 1 (str "abcdefgh")

abbrev hold : Command
hold = record { type = str "hold"; args = [] }
