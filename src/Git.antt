-- ===== src/Git.antt =====
-- pkg/git/git_types.go: what the git servers send and receive.
use cicd_operator.Base.{
  Eq, nat_eq, Str, str_eq, ℕ, ◌≡◌, ◌↔◌, Bool, true, false, Option, List, arith,
}

pub data EventType : Type 0 where
  pull_request push issue_comment pull_request_review pull_request_review_comment : EventType

pub data PullRequestState : Type 0 where
  open_state closed_state : PullRequestState

pub data PullRequestAction : Type 0 where
  reopened opened closed synchronize labeled unlabeled : PullRequestAction

pub record User : Type 0 where
  pub id : ℕ
  pub name : Str
  pub email : Str

-- A ref with its commit: `Base` and `Head`.
pub record Commitish : Type 0 where
  pub ref : Str
  pub sha : Str

-- A label is its name.
pub record PullRequest : Type 0 where
  pub id : ℕ
  pub title : Str
  pub state : PullRequestState
  pub action : PullRequestAction
  pub author : User
  pub url : Str
  pub base : Commitish
  pub head : Commitish
  pub labels : List Str
  pub mergeable : Bool
  pub label_changed : List Str

pub record Push : Type 0 where
  pub ref : Str
  pub sha : Str

pub record Repository : Type 0 where
  pub name : Str
  pub url : Str

-- `PullRequestReviewState`; the empty string is none in `IssueComment`.
pub data ReviewState : Type 0 where
  approved changes_requested : ReviewState

-- A comment with its time and its author, and the pull request of its issue.
pub record IssueComment : Type 0 where
  pub body : Str
  pub created_at : ℕ
  pub author : User
  pub pull : Option PullRequest
  pub review_state : Option ReviewState

pub record Webhook : Type 0 where
  pub event_type : EventType
  pub repo : Repository
  pub sender : User
  pub push_event : Option Push
  pub pull : Option PullRequest
  pub comment : Option IssueComment

-- `CommitStatusState`
pub data StatusState : Type 0 where
  success failure error pending : StatusState

unfoldable pub status_beq : StatusState → StatusState → Bool
status_beq success success = true
status_beq failure failure = true
status_beq error error = true
status_beq pending pending = true
status_beq _ _ = false

pub status_beq_iff : (a b : StatusState) → (status_beq a b ≡ true) ↔ (a ≡ b)
unfolding status_beq
status_beq_iff a b = ground arith

instance abbrev pub status_eq : Eq StatusState
status_eq = record { beq = status_beq; beq_iff = status_beq_iff }

pub record CommitStatus : Type 0 where
  pub context : Str
  pub state : StatusState
  pub description : Str
  pub target_url : Str
