-- ===== src/ApprovalApi.antt =====
-- pkg/apiserver/apis/v1/approvals/decision.go: the requests that approve or reject an approval.
pub mod Decided
use cicd_operator.Base.{
  if◌then◌else◌, ◌==◌, nat_eq, anyb, Str, str_eq, ℕ, Bool, true, false, Option, none, some, List,
  [], ◌∷◌,
}
use cicd_operator.Api.Tasks.{ApprovalUser}
use cicd_operator.ApprovalController.{ApprovalResult, approved, rejected, ApprovalStatus, Approval}
use cicd_operator.GitClient.{Result, ok, err}

pub data Code : Type 0 where
  ok_code bad_request unauthorized_code forbidden : Code

pub data Event : Type 0 where
  not_allowed : Str → Event
  decided_by : ApprovalResult → Str → Str → Event

-- A request: the variables of its path, its decoded body, which gives the reason, and the user of its headers.
pub record DecisionRequest : Type 0 where
  pub namespace : Option Str
  pub name : Option Str
  pub body : Result Str
  pub user : Result Str

-- The answer, the status that is patched, if any, and the events.
pub record Reply : Type 0 where
  pub code : Code
  pub patched : Option ApprovalStatus
  pub events : List Event

abbrev denied : Code → Reply
denied code = record { code = code; patched = none; events = [] }

unfoldable pub is_final : ApprovalResult → Bool
is_final approved = true
is_final rejected = true
is_final _ = false

unfoldable pub is_approver : Str → List ApprovalUser → Bool
is_approver user = anyb (λ a. a.name == user)

unfoldable pub decide : ℕ → ApprovalResult → Str → Str → Approval → Reply
unfolding is_final is_approver
decide now decision reason user approval =
    if is_final approval.status.result
    then denied bad_request
    else if is_approver user approval.users
    then record {
      code = ok_code;
      patched = some (record approval.status {
        result = decision;
        reason = reason;
        approver = user;
        decision_time = some now;
      });
      events = decided_by decision user reason ∷ [];
    }
    else record { code = forbidden; patched = none; events = not_allowed user ∷ [] }

-- `updateDecision`; `get_approval` finds an approval by name and namespace.
module _ (get_approval : Str → Str → Option Approval) (now : ℕ) (decision : ApprovalResult) where
  unfoldable pub with_body : Str → Str → Result Str → Result Str → Reply
  unfolding decide
  with_body namespace name (err e) user = denied bad_request
  with_body namespace name (ok reason) (err e) = denied unauthorized_code
  with_body namespace name (ok reason) (ok user) = elim (get_approval name namespace) [
    | none ↦ denied bad_request
    | some approval ↦ decide now decision reason user approval
  ]

  unfoldable pub with_path : Option Str → Option Str → Result Str → Result Str → Reply
  unfolding with_body
  with_path none name body user = denied bad_request
  with_path (some namespace) none body user = denied bad_request
  with_path (some namespace) (some name) body user = with_body namespace name body user

  unfoldable pub update_decision : DecisionRequest → Reply
  unfolding with_path
  update_decision req = with_path req.namespace req.name req.body req.user

unfoldable pub approve_handler : (Str → Str → Option Approval) → ℕ → DecisionRequest → Reply
unfolding update_decision
approve_handler get_approval now = update_decision get_approval now approved

unfoldable pub reject_handler : (Str → Str → Option Approval) → ℕ → DecisionRequest → Reply
unfolding update_decision
reject_handler get_approval now = update_decision get_approval now rejected
