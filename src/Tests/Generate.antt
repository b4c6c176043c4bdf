-- ===== src/Tests/Generate.antt =====
-- A job that builds with a task of the cluster, asks for an approval and runs a script (pkg/pipelinemanager), and
-- the run of its approval task (controllers/customs, pkg/apiserver).
use cicd_operator.Base.{
  nat_eq, In, Str, str, str_beq, str_eq, ◌≡◌, refl, inl, false, none, some, List, [], ◌∷◌, map,
  arith,
}
use cicd_operator.Tekton.{array_val, EnvVar, TaskRef, ResourceBinding, NewRun}
use cicd_operator.Api.{Job, Sender, IntegrationJob, ConfigJobs, RunStatus}
use cicd_operator.Git.{success}
use cicd_operator.Api.Tasks.{TektonTask, ApprovalUser, JobApproval, NotiEmail}
use cicd_operator.GitClient.{ok, err, failed}
use cicd_operator.PipelineManager.Envs.{generate_default_envs}
use cicd_operator.PipelineManager.HeadRefs.{value_of, words, head_words}
use cicd_operator.PipelineManager.Generate.{Services, generate}
use cicd_operator.PipelineManager.Notify.{
  CustomRun, missing, RunCluster, jobs_of_type, handle_notification,
}
use cicd_operator.PipelineManager.Notify.Wanted.{Wants, notification-Wants}
use cicd_operator.Tests.Jobs.{plain_job}
use cicd_operator.Tests.Pipeline.{built, pull}

abbrev services : Services
services = record {
  fetch_catalog = λ n v. err (failed []);
  parse_url = λ s. ok (record { scheme = str "https"; host = str "git" });
  resource_type = λ n s. ok (str "git");
  itoa = λ n. str "7";
  new_array_or_string = λ x l. array_val (x ∷ l);
  git_image = str "git";
}

abbrev sources : ResourceBinding
sources = record { name = str "src"; spec = none; ref = some (str "repo") }

abbrev build_task : TektonTask
build_task =
    let ref : TaskRef = record { name = str "build"; kind = []; api_version = [] } in
    record {
      task_ref = record { local = some ref; catalog = [] };
      params = [];
      resources = some (record { inputs = sources ∷ []; outputs = [] });
      workspaces = [];
    }

abbrev pub ask : JobApproval
ask =
    let kim : ApprovalUser = record { name = str "kim"; email = str "kim@ci" } in
    let lee : ApprovalUser = record { name = str "lee"; email = [] } in
    record { approvers = kim ∷ lee ∷ []; approvers_config_map = none; request_message = str "ok?" }

abbrev pub ask_job : Job
ask_job = record (plain_job (str "ask") none (str "build" ∷ [])) { approval = some ask }

abbrev pub released : IntegrationJob
released =
    let build = record (plain_job (str "build") none []) { tekton_task = some build_task } in
    let sender : Sender = record { name = str "kim"; email = [] } in
    let refs = record built.spec.refs { sender = some sender } in
    record built {
      spec = record built.spec {
        jobs = build ∷ ask_job ∷ plain_job (str "deploy") none (str "ask" ∷ []) ∷ [];
        refs = refs;
      };
    }

abbrev nothing : NewRun
nothing = record {
  name = [];
  namespace = [];
  labels = [];
  service_account_name = [];
  resources = [];
  declared = [];
  tasks = [];
  workspaces = [];
  param_specs = [];
  params = [];
  timeout = 0;
}

abbrev released_pipeline : NewRun
unfolding generate
released_pipeline = elim (generate services released) [ ok r ↦ r | err e ↦ nothing ]

head_words_example :
    (envs : List EnvVar) × (shas : Str) × (refs : Str) × (generate_default_envs services.parse_url
        released
      ≡ ok envs)
    × (value_of (str "CI_HEAD_SHA") envs ≡ some shas)
    × (value_of (str "CI_HEAD_REF") envs ≡ some refs)
    × (words shas ≡ map (λ p. p.sha) (pull ∷ []))
    × (words refs ≡ map (λ p. p.ref) (pull ∷ []))
unfolding str_beq
head_words_example =
    head_words services.parse_url released (record { scheme = str "https"; host = str "git" })
      (pull ∷ []) refl refl (ground arith)

abbrev noted : Job
noted =
    let mail : NotiEmail = record {
      receivers = str "kim@ci" ∷ [];
      title = str "done";
      content = [];
      is_html = false;
    } in
    record (plain_job (str "deploy") none []) {
      notification = some (record {
        on_success = some (record { email = some mail; slack = none });
        on_failure = none;
      });
    }

abbrev noted_jobs : ConfigJobs
noted_jobs = record { pre_submit_jobs = noted ∷ []; post_submit_jobs = []; periodic_jobs = [] }

abbrev empty_cluster : RunCluster
empty_cluster = record { owner_error = none; get_run = λ n m. missing; create_error = λ r. none }

abbrev succeeded_status : RunStatus
succeeded_status = record {
  name = str "deploy";
  start_time = some 3;
  completion_time = some 8;
  state = success;
  message = [];
  pod_name = [];
}

abbrev noted_run : CustomRun
unfolding handle_notification
noted_run = elim (handle_notification empty_cluster succeeded_status released noted_jobs).0 [
  | [] ↦ record {
    name = [];
    namespace = [];
    ref = record { name = []; kind = []; api_version = [] };
    params = [];
  }
  | r ∷ l ↦ r
]

notification-Wants_example :
    (empty_cluster.get_run noted_run.name noted_run.namespace ≡ missing)
    × (j : Job) × In j (jobs_of_type released.spec.config_ref.type noted_jobs)
    × (j.name ≡ succeeded_status.name)
    × Wants succeeded_status released j noted_run
unfolding handle_notification str_beq
notification-Wants_example =
    notification-Wants empty_cluster noted_run succeeded_status released noted_jobs (inl refl)
