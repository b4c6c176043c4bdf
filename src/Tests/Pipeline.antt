-- ===== src/Tests/Pipeline.antt =====
-- A job of one pull request with a PipelineRun that has succeeded (pkg/pipelinemanager, the job controller).
use cicd_operator.Base.{
  nat_eq, length, All, Str, str, str_beq, str_eq, ◌≤◌, ◌≡◌, refl, Bool, true, false, Option, none,
  some, List, [], ◌∷◌, arith,
}
use cicd_operator.Api.{
  running, pre_submit, Job, RefsBase, RefsPull, Refs, JobSpec, JobStatus, RunStatus, IntegrationJob,
  is_set, is_completed,
}
use cicd_operator.GitClient.{ok, Request}
use cicd_operator.PipelineManager.RoundTrip.{IsSha}
use cicd_operator.PipelineManager.Description.{is_hex}
use cicd_operator.PipelineManager.Reflect.{
  PipelineRun, Condition, successful, TaskRunStatus, reflect, is_ended,
}
use cicd_operator.PipelineManager.Times.{IsCoherent, reflect_total}
use cicd_operator.PipelineManager.Report.{update_git_commit_status, reflect_status}
use cicd_operator.PipelineManager.Posted.{Posts, update-Posts, NoStatus, lost-NoStatus}
use cicd_operator.JobController.{World, job_found, run_found, finalizer, has_finalizer, reconcile}
use cicd_operator.JobController.Notified.{Heard, reconcile-Heard}
use cicd_operator.Tests.ChatOps.{server, config}
use cicd_operator.Tests.Jobs.{plain_job}

abbrev unit_job : Job
unit_job = plain_job (str "unit") none []

abbrev unit_status : RunStatus
unit_status = record {
  name = str "unit";
  start_time = none;
  completion_time = none;
  state = cicd_operator.Git.pending;
  message = [];
  pod_name = [];
}

abbrev pub pull : RefsPull
pull = record {
  id = 7;
  ref = str "refs/heads/topic";
  sha = str "bbbbb";
  link = [];
  author = str "kim";
}

abbrev pub built : IntegrationJob
built =
    let base : RefsBase = record { ref = str "refs/heads/main"; link = []; sha = str "abcde" } in
    let refs : Refs = record {
      repository = str "r";
      link = [];
      sender = none;
      base = base;
      pulls = some (pull ∷ []);
    } in
    let spec : JobSpec = record {
      config_ref = record { name = str "config"; type = pre_submit };
      id = str "abcdefgh";
      workspaces = [];
      jobs = unit_job ∷ [];
      refs = refs;
      timeout = 60;
      param_config = none;
    } in
    record {
      name = str "config-bbbbb-abcde";
      namespace = str "ci";
      labels = [];
      creation_timestamp = 1;
      deletion_timestamp = none;
      finalizers = finalizer ∷ [];
      spec = spec;
      status = record {
        state = running;
        message = [];
        start_time = some 2;
        completion_time = none;
        jobs = unit_status ∷ [];
      };
    }

abbrev succeeded : PipelineRun
succeeded =
    let condition : Condition = record { reason = successful; text = str "done" } in
    let task : TaskRunStatus = record {
      pod = str "pod";
      started = some 3;
      ended = some 8;
      conditions = condition ∷ [];
    } in
    record {
      created_at = 2;
      ended = some 9;
      condition = some (str "done");
      conditions = condition ∷ [];
      task_runs = (str "unit", some task) ∷ [];
      runs = [];
    }

abbrev quiet : RunStatus → Option Str
quiet s = none

succeeded-IsCoherent : IsCoherent (some succeeded)
succeeded-IsCoherent pr e text q n = ground (arith, e, n)

reflect_total_example :
    (r : JobStatus) × (flags : List Bool) × (reflect quiet 10
        (some succeeded)
        (unit_job ∷ [])
        built.status
      ≡ some (r, flags))
    × (length r.jobs ≡ 1)
    × (1 ≤ length flags)
    × (is_ended r.state ≡ true → (is_set r.start_time ≡ true) × (is_set r.completion_time ≡ true))
reflect_total_example =
    reflect_total quiet 10 (some succeeded) (unit_job ∷ []) built.status succeeded-IsCoherent

base-IsSha : IsSha (str "abcde")
unfolding is_hex
base-IsSha = record { digits = ground arith; long = omega arith; short = omega arith }

update-Posts_example :
    (done : List Request) × (update_git_commit_status server
        (str "host")
        config
        built
        (true ∷ [])
        []
      ≡ (ok tt, done))
    × Posts server (str "host") built (str "bbbbb") (unit_status ∷ []) (true ∷ []) [] done
update-Posts_example =
    update-Posts server (str "host") built pull refl base-IsSha config (true ∷ []) [] refl refl
      (omega arith)

lost-NoStatus_example :
    All NoStatus ((reflect_status server (str "host") quiet 10 none config built).1 []).1
lost-NoStatus_example = lost-NoStatus server (str "host") quiet 10 config built

abbrev world : World
world = record {
  server = server;
  get_job = job_found built;
  get_config = ok config;
  get_run = run_found succeeded;
  host = str "host";
  now = 10;
  notify = quiet;
}

built-has : has_finalizer built.finalizers ≡ true
unfolding has_finalizer str_beq
built-has = refl

built-running : is_completed built ≡ false
unfolding is_completed is_set
built-running = refl

reconcile-Heard_example : Heard built (reconcile world []).1
reconcile-Heard_example = reconcile-Heard world built refl built-has refl built-running
