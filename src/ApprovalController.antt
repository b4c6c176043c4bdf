-- ===== src/ApprovalController.antt =====
-- controllers/approval_controller.go. The two conditions are the slots of a record. The role's rules and labels are
-- left out; the mail templates and the mail sender are parameters.
pub mod MailOnce
use cicd_operator.Base.{
  if◌then◌else◌, ◌==◌, nat_eq, Str, str, str_eq, pos, negsuc, zero, suc, refl, ◌⊎◌, inl, inr, Bool,
  true, false, not, ◌&&◌, ℕ, Option, none, some, List, [], ◌∷◌, ◌++◌, arith,
}
use cicd_operator.Api.Tasks.{ApprovalUser}
use cicd_operator.RoleBinding.{Subject, add_subjects}

pub data ApprovalResult : Type 0 where
  no_result awaiting approved rejected errored : ApprovalResult

pub data MailStatus : Type 0 where
  empty_status unknown_status true_status false_status : MailStatus

pub record MailCondition : Type 0 where
  pub status : MailStatus
  pub reason : Str
  pub message : Str

pub data Mail : Type 0 where
  request_mail result_mail : Mail

pub record ApprovalStatus : Type 0 where
  pub result : ApprovalResult
  pub approver : Str
  pub reason : Str
  pub decision_time : Option ℕ
  pub request_cond : Option MailCondition
  pub result_cond : Option MailCondition

pub record Approval : Type 0 where
  pub name : Str
  pub namespace : Str
  pub skip_send_mail : Bool
  pub pipeline_run : Str
  pub integration_job : Str
  pub job_name : Str
  pub message : Str
  pub sender : Option ApprovalUser
  pub link : Str
  pub users : List ApprovalUser
  pub status : ApprovalStatus

unfoldable pub not_processed : Str → MailCondition
not_processed text = record { status = unknown_status; reason = str "NotProcessed"; message = text }

unfoldable pub default_condition : Str → Option MailCondition → MailCondition
unfolding not_processed
default_condition text none = not_processed text
default_condition text (some c) = c

unfoldable pub upgrade_text : MailStatus → Str
upgrade_text true_status = str "Sent"
upgrade_text false_status = str "NotSent"
upgrade_text _ = str "Unknown"

-- `upgradeV050Condition` with these two texts.
unfoldable pub upgrade_condition : MailCondition → MailCondition
unfolding upgrade_text
upgrade_condition c = record c {
  reason = (if c.reason == [] then upgrade_text c.status else c.reason);
  message = (if c.message == [] then upgrade_text c.status else c.message);
}

-- The conditions before anything else is done.
unfoldable pub request_condition : ApprovalStatus → MailCondition
unfolding default_condition upgrade_condition
request_condition s =
    upgrade_condition (default_condition (str "Request email is not processed yet") s.request_cond)

unfoldable pub result_condition : ApprovalStatus → MailCondition
unfolding default_condition upgrade_condition
result_condition s =
    upgrade_condition (default_condition (str "Result email is not processed yet") s.result_cond)

-- The answers of the cluster and of the mail sender; `binding` is an error, or the subjects of the binding, none if
-- it is not there.
pub record Outside : Type 0 where
  pub role_error : Option Str
  pub binding : Str ⊎ List Subject
  pub binding_error : Option Str
  pub mail_error : Mail → Option Str
  pub enable_mail : Bool
  pub send_error : Mail → Option Str

pub data Effect : Type 0 where
  put_binding : List Subject → Effect
  sent : Mail → Effect

unfoldable pub awaits_request : MailStatus → Bool
awaits_request empty_status = true
awaits_request unknown_status = true
awaits_request _ = false

unfoldable pub awaits_result : MailStatus → Bool
awaits_result unknown_status = true
awaits_result _ = false

unfoldable pub is_decided : ApprovalResult → Bool
is_decided approved = true
is_decided rejected = true
is_decided _ = false

unfoldable pub is_some {ℓ} : {A : Type ℓ} → Option A → Bool
is_some none = false
is_some (some a) = true

module _ (o : Outside) where
  -- `sendMail`
  unfoldable pub send_mail : Mail → MailCondition × List Effect
  send_mail m =
      if not o.enable_mail
      then (
        record {
          status = false_status;
          reason = str "EmailDisabled";
          message = str "Email feature is disabled";
        },
        [],
      )
      else elim (o.send_error m) [
        | some e ↦ (
          record { status = false_status; reason = str "ErrorSendingMail"; message = e },
          sent m ∷ [],
        )
        | none ↦ (
          record { status = true_status; reason = str "EmailSent"; message = str "Email is sent" },
          sent m ∷ [],
        )
      ]

  -- A mail is generated and sent.
  unfoldable pub try_mail : Mail → MailCondition × List Effect
  unfolding send_mail
  try_mail m = elim (o.mail_error m) [
    | some e ↦
        (record { status = false_status; reason = str "EmailGenerateError"; message = e }, [])
    | none ↦ send_mail m
  ]

  unfoldable pub request_part : Approval → MailCondition → MailCondition × List Effect
  unfolding try_mail awaits_request
  request_part a c =
      if not a.skip_send_mail && awaits_request c.status then try_mail request_mail else (c, [])

  unfoldable pub result_part : Approval → MailCondition → MailCondition × List Effect
  unfolding try_mail awaits_result is_decided is_some
  result_part a c =
      if not a.skip_send_mail
        && (is_decided a.status.result && (is_some a.sender && awaits_result c.status))
      then try_mail result_mail
      else (c, [])

  -- The status that is patched in the end, by the result, the reason and the conditions.
  unfoldable pub status_with :
      ApprovalStatus → ApprovalResult → Str → MailCondition → MailCondition → ApprovalStatus
  status_with s result reason c d = record s {
    result = result;
    reason = reason;
    request_cond = some c;
    result_cond = some d;
  }

  unfoldable pub mailed :
      Approval
      → List Subject
      → MailCondition × List Effect
      → MailCondition × List Effect
      → ApprovalStatus × List Effect
  unfolding status_with
  mailed a subjects (c, r) (d, t) =
      (status_with a.status a.status.result a.status.reason c d, put_binding subjects ∷ r ++ t)

  -- The binding is written, and then the mails are sent.
  unfoldable pub bound :
      Approval
      → MailCondition
      → MailCondition
      → List Subject
      → Option Str
      → ApprovalStatus × List Effect
  unfolding status_with mailed
  bound a c d subjects (some e) = (status_with a.status errored e c d, put_binding subjects ∷ [])
  bound a c d subjects none = mailed a subjects (request_part a c) (result_part a d)

  unfoldable pub with_binding :
      Approval → MailCondition → MailCondition → Str ⊎ List Subject → ApprovalStatus × List Effect
  unfolding status_with add_subjects bound
  with_binding a c d (inl e) = (status_with a.status errored e c d, [])
  with_binding a c d (inr subjects) =
      bound a c d (add_subjects a.namespace a.users subjects) o.binding_error

  unfoldable pub with_role :
      Approval → MailCondition → MailCondition → Option Str → ApprovalStatus × List Effect
  unfolding status_with with_binding
  with_role a c d (some e) = (status_with a.status errored e c d, [])
  with_role a c d none = with_binding a c d o.binding

  -- An approval without a result awaits one; else the role, its binding and the mails follow.
  unfoldable pub by_result :
      ApprovalResult → Approval → MailCondition → MailCondition → ApprovalStatus × List Effect
  unfolding status_with with_role
  by_result no_result a c d = (status_with a.status awaiting a.status.reason c d, [])
  by_result _ a c d = with_role a c d o.role_error

  -- `Reconcile` of an approval that is there: the status that is patched, and what is asked for besides.
  unfoldable pub reconcile_approval : Approval → ApprovalStatus × List Effect
  unfolding by_result request_condition result_condition
  reconcile_approval a =
      by_result a.status.result a (request_condition a.status) (result_condition a.status)
