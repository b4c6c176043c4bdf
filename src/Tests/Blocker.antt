-- ===== src/Tests/Blocker.antt =====
-- pkg/blocker at a query with a label, a branch and no required check.
use cicd_operator.Base.{nat_eq, Str, str, str_eq, Map, ◌≡◌, ◌↔◌, true, [], ◌∷◌}
use cicd_operator.Api.{MergeQuery}
use cicd_operator.Git.{
  PullRequest, User, Commitish, CommitStatus, StatusState, success, failure, open_state, opened,
}
use cicd_operator.Blocker.Checks.{check_conditions_full}
use cicd_operator.Blocker.Checks.Statuses.{Succeeded}
use cicd_operator.Blocker.Checks.Conditions.{Meets, check_conditions_full_iff}

abbrev pub lgtm_query : MergeQuery
lgtm_query = record {
  labels = str "lgtm" ∷ [];
  block_labels = str "wip" ∷ [];
  authors = [];
  skip_authors = str "bot" ∷ [];
  branches = str "main" ∷ [];
  skip_branches = [];
  checks = [];
  optional_checks = str "lint" ∷ [];
  approve_required = true;
}

abbrev pub reviewed : PullRequest
reviewed =
    let author : User = record { id = 1; name = str "kim"; email = [] } in
    let base : Commitish = record { ref = str "refs/heads/main"; sha = str "aaaaa" } in
    let head : Commitish = record { ref = str "refs/heads/topic"; sha = str "bbbbb" } in
    record {
      id = 7;
      title = str "t";
      state = open_state;
      action = opened;
      author = author;
      url = [];
      base = base;
      head = head;
      labels = str "lgtm" ∷ str "approved" ∷ [];
      mergeable = true;
      label_changed = [];
    }

abbrev status_of : Str → StatusState → Str × CommitStatus
status_of name s = (name, record { context = name; state = s; description = []; target_url = [] })

abbrev two_statuses : Map Str CommitStatus
two_statuses = status_of (str "test") success ∷ status_of (str "lint") failure ∷ []

check_conditions_full_iff_example :
    (((check_conditions_full (str "hold") lgtm_query reviewed two_statuses).0 ≡ true) ↔ (
      Meets (str "hold") lgtm_query reviewed × (true ≡ true) × Succeeded two_statuses lgtm_query))
    × (((check_conditions_full (str "hold") lgtm_query reviewed two_statuses).1 ≡ true)
        ↔ (¬ Meets (str "hold") lgtm_query reviewed))
check_conditions_full_iff_example =
    check_conditions_full_iff (str "hold") lgtm_query reviewed two_statuses
