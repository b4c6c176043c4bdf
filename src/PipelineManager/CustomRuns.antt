-- ===== src/PipelineManager/CustomRuns.antt =====
-- pkg/pipelinemanager/custom_runs.go: the parameters of the operator's own tasks.
use cicd_operator.Base.{
  if◌then◌else◌, ◌==◌, nat_eq, Str, str, str_eq, Bool, true, false, Option, none, some, List, [],
  ◌∷◌, ◌++◌, map,
}
use cicd_operator.Tekton.{string_val, array_val, Param, TaskRef}
use cicd_operator.Api.{Job, Sender, Refs, IntegrationJob}
use cicd_operator.Api.Tasks.{ApprovalUser, JobApproval, NotiEmail, NotiSlack}
use cicd_operator.GitClient.{Result, ok, err, panicked}
use cicd_operator.GitClient.Results.{◌>>=◌}

-- `CustomTaskAPIVersion`
abbrev pub custom_task_api_version : Str
custom_task_api_version = str "cicd.tmax.io/v1"

unfoldable pub generate_custom_task_ref : Str → TaskRef
generate_custom_task_ref kind = record {
  name = [];
  kind = kind;
  api_version = custom_task_api_version;
}

abbrev pub text_param : Str → Str → Param
text_param name value = record { name = name; value = string_val value }

abbrev pub array_param : Str → List Str → Param
array_param name value = record { name = name; value = array_val value }

-- An approver with its email address, if it has one.
unfoldable pub approver_param : ApprovalUser → Str
approver_param u = if u.email == [] then u.name else u.name ++ b'=' ∷ u.email

-- The link of the first pull request, or of the base; an empty list of pull requests is an index out of range.
unfoldable pub approval_link : Refs → Result Str
approval_link refs = elim refs.pulls [
  | none ↦ ok refs.base.link
  | some pulls ↦ elim pulls [ [] ↦ err panicked | p ∷ l ↦ ok p.link ]
]

-- A nil pointer is followed.
unfoldable pub deref : Option Sender → Result Sender
deref none = err panicked
deref (some s) = ok s

unfoldable pub approvers_cm : Option Str → Str
approvers_cm none = []
approvers_cm (some name) = name

unfoldable pub generate_approval_params : IntegrationJob → Job → JobApproval → Result (List Param)
unfolding approver_param approval_link deref approvers_cm
generate_approval_params job j approval = do
  link ← approval_link job.spec.refs
  sender ← deref job.spec.refs.sender
  ok (
      array_param (str "approvers") (map approver_param approval.approvers)
      ∷ text_param (str "message") approval.request_message
      ∷ text_param (str "integration-job") job.name
      ∷ text_param (str "integration-job-job") j.name
      ∷ text_param (str "senderName") sender.name
      ∷ text_param (str "senderEmail") sender.email
      ∷ text_param (str "link") link
      ∷ text_param (str "approvers-config-map") (approvers_cm approval.approvers_config_map)
      ∷ [])

-- strconv.FormatBool
unfoldable pub format_bool : Bool → Str
format_bool true = str "true"
format_bool false = str "false"

unfoldable pub generate_email_run_params : IntegrationJob → Job → NotiEmail → List Param
unfolding format_bool
generate_email_run_params job j email =
    array_param (str "receivers") email.receivers
    ∷ text_param (str "title") email.title
    ∷ text_param (str "content") email.content
    ∷ text_param (str "isHtml") (format_bool email.is_html)
    ∷ text_param (str "integration-job") job.name
    ∷ text_param (str "integration-job-job") j.name
    ∷ []

unfoldable pub generate_slack_run_params : IntegrationJob → Job → NotiSlack → List Param
generate_slack_run_params job j slack =
    text_param (str "webhook-url") slack.url
    ∷ text_param (str "message") slack.message
    ∷ text_param (str "integration-job") job.name
    ∷ text_param (str "integration-job-job") j.name
    ∷ []
