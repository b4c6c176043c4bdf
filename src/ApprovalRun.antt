-- ===== src/ApprovalRun.antt =====
-- controllers/customs/approval_run_controller.go: the run of an approval task, and the approval that it asks for.
-- ParseApproversList is that of internal/utils/utils.go.
pub mod Users
pub mod Passes
use cicd_operator.Base.{
  if◌then◌else◌, ◌==◌, nat_eq, has_prefix, join, split_on, Str, str, str_eq, ℕ, Bool, true, false,
  not, ◌&&◌, Option, none, some, List, [], ◌∷◌, ◌++◌, map,
}
use cicd_operator.Tekton.{
  ParamType, string_type, array_type, ArrayOrString, string_val, array_val, Param, Owner,
}
use cicd_operator.Api.Tasks.{ApprovalUser}
use cicd_operator.ApprovalController.{
  ApprovalResult, no_result, awaiting, approved, rejected, errored, MailStatus, MailCondition,
  false_status, ApprovalStatus, Approval,
}
use cicd_operator.GitClient.{Failure, Result, ok, err, failed}
use cicd_operator.GitClient.Results.{◌>>=◌, each}

-- `corev1.ConditionStatus`
pub data Outcome : Type 0 where
  unknown holds fails : Outcome

pub record RunCondition : Type 0 where
  pub status : Outcome
  pub reason : Str
  pub message : Str

-- `tektonv1alpha1.Run`; `condition` is the one of type Succeeded.
pub record Run : Type 0 where
  pub name : Str
  pub namespace : Str
  pub owners : List Owner
  pub params : List Param
  pub condition : Option RunCondition
  pub start_time : Option ℕ
  pub completion_time : Option ℕ

pub data FoundApproval : Type 0 where
  found : Approval → FoundApproval
  not_found : FoundApproval
  get_error : Str → FoundApproval

-- `config_map` gives the text under the key `approvers` of a config map, by name and namespace; `well_formed` is
-- the match of the regular expression for an approver, `trim_space` strings.TrimSpace, and `describe` the message
-- of a decision.
pub record Cluster : Type 0 where
  pub enable_mail : Bool
  pub now : ℕ
  pub trim_space : Str → Str
  pub well_formed : Str → Bool
  pub config_map : Str → Str → Option Str
  pub get_approval : Str → Str → FoundApproval
  pub owner_error : Option Str
  pub create_error : Approval → Option Str
  pub describe : Approval → Str

unfoldable pub type_text : ParamType → Str
type_text string_type = str "string"
type_text array_type = str "array"

unfoldable pub wrong_type : Str → ParamType → ParamType → Str
unfolding type_text
wrong_type key kind got =
    str "parameter "
    ++ (key ++ (str " is expected to be " ++ (type_text kind ++ (str " ,got " ++ type_text got))))

-- A parameter of the type that is expected; an array has no text and a text no array.
unfoldable pub value_if : Str → ParamType → ArrayOrString → Result (Str × List Str)
value_if key string_type (string_val v) = ok (v, [])
value_if key array_type (array_val l) = ok ([], l)
value_if key string_type (array_val l) = err (failed (wrong_type key string_type array_type))
value_if key array_type (string_val v) = err (failed (wrong_type key array_type string_type))

unfoldable pub search_param : List Param → Str → ParamType → Result (Str × List Str)
unfolding value_if
search_param [] key kind = err (failed (str "there is no param " ++ (key ++ str " for Run")))
search_param (p ∷ l) key kind =
    let rest = search_param l key kind in if p.name == key then value_if key kind p.value else rest

-- The first two pieces; `strings.Split` gives one at least.
unfoldable pub user_of : List Str → ApprovalUser
user_of [] = record { name = []; email = [] }
user_of (name ∷ []) = record { name = name; email = [] }
user_of (name ∷ email ∷ l) = record { name = name; email = email }

unfoldable pub parse_approver : List Str → List ApprovalUser
unfolding user_of split_on
parse_approver = map (λ s. user_of (split_on b'=' s))

-- The first owner that is a PipelineRun.
unfoldable pub pipeline_run_of : List Owner → Str
unfolding has_prefix
pipeline_run_of [] = str "none"
pipeline_run_of (o ∷ l) =
    if has_prefix o.api_version (str "tekton.dev/v1") && o.kind == str "PipelineRun"
    then o.name
    else pipeline_run_of l

abbrev concat : List (List Str) → List Str
concat [] = []
concat (l ∷ ls) = l ++ concat ls

abbrev pub fresh_status : ApprovalStatus
fresh_status = record {
  result = no_result;
  approver = [];
  reason = [];
  decision_time = none;
  request_cond = none;
  result_cond = none;
}

-- The email address may be missing.
unfoldable pub text_or_empty : Result (Str × List Str) → Str
text_or_empty (ok (s, l)) = s
text_or_empty (err e) = []

unfoldable pub default_run_condition : Option RunCondition → RunCondition
default_run_condition (some cond) = cond
default_run_condition none = record {
  status = unknown;
  reason = str "Awaiting";
  message = str "waiting for approval";
}

-- A run with a completion time, or whose condition is decided, is left as it is.
unfoldable pub is_over : Run → Bool
is_over run = elim run.completion_time [
  | some t ↦ true
  | none ↦ elim run.condition [
    | none ↦ false
    | some cond ↦ elim cond.status [ unknown ↦ false | _ ↦ true ]
  ]
]

unfoldable pub result_text : ApprovalResult → Str
result_text no_result = []
result_text awaiting = str "Awaiting"
result_text approved = str "Approved"
result_text rejected = str "Rejected"
result_text errored = str "Error"

unfoldable pub was_refused : MailStatus → Bool
was_refused false_status = true
was_refused _ = false

unfoldable pub unsent : Str → Option MailCondition → List Str
unfolding was_refused
unsent label none = []
unsent label (some m) =
    if was_refused m.status then (label ++ (m.reason ++ b'-' ∷ m.message)) ∷ [] else []

-- What becomes of a mail stands in the message only.
unfoldable pub mail_statuses : ApprovalStatus → Str
unfolding unsent join
mail_statuses s =
    join (str ", ")
      (unsent (str "RequestMail : ") s.request_cond ++ unsent (str "ResultMail : ") s.result_cond)

unfoldable pub verdict : ApprovalResult → Outcome
verdict approved = holds
verdict _ = fails

unfoldable pub failed_run : Run → Str → Str → Run
failed_run run reason message = record run {
  condition = some (record { status = fails; reason = reason; message = message });
}

unfoldable pub text_of_error : Failure → Str
text_of_error (failed e) = e
text_of_error _ = []

module _ (c : Cluster) where
  unfoldable pub checked_approver : Str → Result Str
  checked_approver s =
      let trimmed = c.trim_space s in
      if c.well_formed trimmed
      then ok trimmed
      else err (
          failed (
            str "comma-separated approver "
            ++ (s ++ str " is not in form of <user-name>[=<email>](optional)")))

  unfoldable pub parse_approvers_list : Str → Result (List Str)
  unfolding checked_approver each split_on
  parse_approvers_list s = do
    lines ←
        each (λ line. each checked_approver (split_on b',' (c.trim_space line)))
          (split_on b'\n' (c.trim_space s))
    ok (concat lines)

  -- What a config map adds: nothing, if it or its key is not there or its text is malformed.
  unfoldable pub listed_approvers : Option Str → List Str
  unfolding parse_approvers_list
  listed_approvers none = []
  listed_approvers (some s) = elim (parse_approvers_list s) [ ok l ↦ l | err e ↦ [] ]

  unfoldable pub all_approvers : Run → List Str → Str → List Str
  unfolding listed_approvers
  all_approvers run named cm =
      if cm == [] then named else named ++ listed_approvers (c.config_map cm run.namespace)

  unfoldable pub new_approval : Run → Result Approval
  unfolding search_param pipeline_run_of parse_approver all_approvers text_or_empty
  new_approval run = do
    named ← search_param run.params (str "approvers") array_type
    cm ← search_param run.params (str "approvers-config-map") string_type
    message ← search_param run.params (str "message") string_type
    job ← search_param run.params (str "integration-job") string_type
    job_job ← search_param run.params (str "integration-job-job") string_type
    sender ← search_param run.params (str "senderName") string_type
    link ← search_param run.params (str "link") string_type
    let email = text_or_empty (search_param run.params (str "senderEmail") string_type)
    ok (record {
      name = run.name;
      namespace = run.namespace;
      skip_send_mail = not c.enable_mail;
      pipeline_run = pipeline_run_of run.owners;
      integration_job = job.0;
      job_name = job_job.0;
      message = message.0;
      sender = some (record { name = sender.0; email = email });
      link = link.0;
      users = parse_approver (all_approvers run named.1 cm.0);
      status = fresh_status;
    })

  unfoldable pub reflect_approval : Run → RunCondition → Approval → Run
  unfolding result_text mail_statuses verdict
  reflect_approval run cond a = elim a.status.decision_time [
    | some t ↦ record run {
      condition = some (record {
        status = verdict a.status.result;
        reason = result_text a.status.result;
        message = c.describe a;
      });
      completion_time = some c.now;
    }
    | none ↦ record run {
      condition = some (record cond { status = unknown; message = mail_statuses a.status });
    }
  ]

  unfoldable pub create_approval : Run → RunCondition → Approval → Run × List Approval
  unfolding failed_run
  create_approval run cond a = elim c.owner_error [
    | some e ↦ (failed_run run (str "CannotCreateApproval") e, [])
    | none ↦ elim (c.create_error a) [
      | some e ↦ (failed_run run (str "CannotCreateApproval") e, [])
      | none ↦ (record run { condition = some cond }, a ∷ [])
    ]
  ]

  unfoldable pub with_approval : Run → RunCondition → Approval → FoundApproval → Run × List Approval
  unfolding reflect_approval create_approval failed_run
  with_approval run cond a (found b) = (reflect_approval run cond b, [])
  with_approval run cond a not_found = create_approval run cond a
  with_approval run cond a (get_error e) = (failed_run run (str "ErrorGettingApproval") e, [])

  unfoldable pub started : Run → Run
  started run = elim run.start_time [ none ↦ record run { start_time = some c.now } | some t ↦ run ]

  -- `Handle`: the run that is patched in the end, and the approval that is created.
  unfoldable pub handle : Run → Run × List Approval
  unfolding is_over default_run_condition started new_approval with_approval failed_run
      text_of_error
  handle run =
      let cond = default_run_condition run.condition in
      if is_over run
      then (record run { condition = some cond }, [])
      else elim (new_approval (started run)) [
        | err e ↦ (failed_run (started run) (str "CannotCreateApproval") (text_of_error e), [])
        | ok a ↦ with_approval (started run) cond a (c.get_approval a.name a.namespace)
      ]
