-- ===== src/Tests/ApprovalRun.antt =====
-- The run of an approval task that one of two users approves (controllers/customs, pkg/apiserver).
use cicd_operator.Base.{
  nat_eq, In, Str, str, str_beq, str_eq, ◌≡◌, refl, true, false, none, some, List, [], ◌∷◌, arith,
}
use cicd_operator.Tekton.{Param}
use cicd_operator.Api.{Sender}
use cicd_operator.ApprovalController.{Approval}
use cicd_operator.ApprovalApi.{DecisionRequest, approve_handler}
use cicd_operator.ApprovalApi.Decided.{Happening, approve, history, IsConsent}
use cicd_operator.ApprovalRun.{
  Run, FoundApproval, found, Cluster, pipeline_run_of, fresh_status, new_approval, is_over, handle,
}
use cicd_operator.ApprovalRun.Users.{new_approval-generated}
use cicd_operator.ApprovalRun.Passes.{passes_by_approver}
use cicd_operator.GitClient.{ok, err}
use cicd_operator.PipelineManager.CustomRuns.{approvers_cm, approval_link, generate_approval_params}
use cicd_operator.Tests.Generate.{ask, ask_job, released}

abbrev params : List Param
unfolding generate_approval_params
params = elim (generate_approval_params released ask_job ask) [ ok l ↦ l | err e ↦ [] ]

abbrev ask_run : Run
ask_run = record {
  name = str "ask";
  namespace = str "ci";
  owners = [];
  params = params;
  condition = none;
  start_time = none;
  completion_time = none;
}

-- A cluster that has the approval.
abbrev cluster : FoundApproval → Cluster
cluster f = record {
  enable_mail = false;
  now = 9;
  trim_space = λ s. s;
  well_formed = λ s. true;
  config_map = λ n m. none;
  get_approval = λ n m. f;
  owner_error = none;
  create_error = λ a. none;
  describe = λ a. [];
}

new_approval-generated_example :
    (sender : Sender) × (link : Str) × (released.spec.refs.sender ≡ some sender)
    × (approval_link released.spec.refs ≡ ok link)
    × (new_approval (cluster FoundApproval.not_found) ask_run
        ≡ ok (record {
          name = str "ask";
          namespace = str "ci";
          skip_send_mail = true;
          pipeline_run = pipeline_run_of [];
          integration_job = released.name;
          job_name = ask_job.name;
          message = ask.request_message;
          sender = some (record { name = sender.name; email = sender.email });
          link = link;
          users = ask.approvers;
          status = fresh_status;
        }))
unfolding generate_approval_params approvers_cm
new_approval-generated_example =
    new_approval-generated (cluster FoundApproval.not_found) released ask_job ask ask_run params
      refl refl refl (ground arith)

abbrev asked : Approval
asked = record {
  name = str "ask";
  namespace = str "ci";
  skip_send_mail = true;
  pipeline_run = str "none";
  integration_job = released.name;
  job_name = str "ask";
  message = str "ok?";
  sender = some (record { name = str "kim"; email = [] });
  link = [];
  users = ask.approvers;
  status = fresh_status;
}

abbrev consent : DecisionRequest
consent = record {
  namespace = some (str "ci");
  name = some (str "ask");
  body = ok [];
  user = ok (str "lee");
}

passes_by_approver_example :
    (h : Happening) × In h (approve 8 consent ∷ []) × IsConsent ask.approvers h
unfolding generate_approval_params approvers_cm is_over new_approval approve_handler handle str_beq
passes_by_approver_example =
    passes_by_approver (cluster (found (history (approve 8 consent ∷ []) asked))) released ask_job
      ask ask_run params (approve 8 consent ∷ []) asked refl refl refl (ground arith) refl refl refl
      refl
