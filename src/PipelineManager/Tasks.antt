-- ===== src/PipelineManager/Tasks.antt =====
-- pkg/pipelinemanager/tektonTasks.go, and generateTask of pipelinemanager.go: the task of one job. `fetch_catalog`
-- gets a task from Tekton's catalog by name and version.
use cicd_operator.Base.{
  if◌then◌else◌, ◌==◌, nat_eq, Str, str, str_eq, split_on, Option, none, some, List, [], ◌∷◌, ◌++◌,
  map,
}
use cicd_operator.Tekton.{
  string_val, array_val, Param, TaskStep, ResourceBinding, ResourceBindings, TaskResource,
  TaskResources, TaskSpec, PipelineTask,
}
use cicd_operator.Api.{Job, IntegrationJob}
use cicd_operator.Api.Tasks.{ParameterValue, TektonTask, JobApproval, NotiEmail, NotiSlack}
use cicd_operator.GitClient.{Result, ok, err, failed}
use cicd_operator.GitClient.Results.{◌>>=◌}
use cicd_operator.PipelineManager.Envs.{default_working_dir}
use cicd_operator.PipelineManager.Checkout.{git_checkout}
use cicd_operator.PipelineManager.CustomRuns.{
  generate_custom_task_ref, generate_approval_params, generate_email_run_params,
  generate_slack_run_params,
}

-- `ConvertToTektonParams`
unfoldable pub convert_to_tekton_param : ParameterValue → Param
convert_to_tekton_param p = record {
  name = p.name;
  value = elim p.array_val [ none ↦ string_val p.string_val | some l ↦ array_val l ];
}

unfoldable pub global_resource_name : Str → Str → Str
global_resource_name job_name res_name = job_name ++ b'-' ∷ res_name

-- What a task binds, and what the run binds for it.
unfoldable pub task_resource : Str → ResourceBinding → TaskResource
unfolding global_resource_name
task_resource job_name res = record {
  name = res.name;
  resource = global_resource_name job_name res.name;
}

unfoldable pub global_resource : Str → ResourceBinding → ResourceBinding
unfolding global_resource_name
global_resource job_name res = record res { name = global_resource_name job_name res.name }

unfoldable pub bind_resources : Str → ResourceBindings → TaskResources
unfolding task_resource
bind_resources job_name r = record {
  inputs = map (task_resource job_name) r.inputs;
  outputs = map (task_resource job_name) r.outputs;
}

unfoldable pub run_resources : Str → Option ResourceBindings → List ResourceBinding
unfolding global_resource
run_resources job_name none = []
run_resources job_name (some r) =
    map (global_resource job_name) r.inputs ++ map (global_resource job_name) r.outputs

-- `&PipelineTask{Name: j.Name}`
unfoldable pub named_task : Str → PipelineTask
named_task name = record {
  name = name;
  task_ref = none;
  task_spec = none;
  params = [];
  resources = none;
  workspaces = [];
  run_after = [];
  when_expressions = [];
}

unfoldable pub custom_task : Str → Str → List Param → PipelineTask
unfolding named_task generate_custom_task_ref
custom_task name kind params = record (named_task name) {
  task_ref = some (generate_custom_task_ref kind);
  params = params;
}

-- `generateSteps`: the checkout, unless it is skipped, and the script.
unfoldable pub generate_steps : Str → Job → List TaskStep
unfolding git_checkout
generate_steps git_image j =
    let c = j.container in
    let step : TaskStep = record {
      name = if j.name == [] then [] else str "step-0";
      container = record c {
        working_dir = if c.working_dir == [] then default_working_dir else c.working_dir;
      };
      script = j.script;
    } in
    if j.skip_checkout then step ∷ [] else git_checkout git_image ∷ step ∷ []

unfoldable pub script_task : Str → IntegrationJob → Job → PipelineTask
unfolding named_task generate_steps
script_task git_image job j =
    let spec : TaskSpec = record {
      steps = generate_steps git_image j;
      workspaces = job.spec.workspaces;
      results = [];
    } in
    record (named_task j.name) {
      task_spec = some spec;
      workspaces = map (λ (w : Str). record { name = w; workspace = w }) job.spec.workspaces;
    }

module _ (fetch_catalog : Str → Str → Result TaskSpec) where
  unfoldable pub fetch_tokens : List Str → Result TaskSpec
  fetch_tokens [] = err (failed (str "catalog reference should be in form of [name]@[version]"))
  fetch_tokens (name ∷ []) =
      err (failed (str "catalog reference should be in form of [name]@[version]"))
  fetch_tokens (name ∷ version ∷ []) = fetch_catalog name version
  fetch_tokens (name ∷ version ∷ more ∷ l) =
      err (failed (str "catalog reference should be in form of [name]@[version]"))

  -- The task with the reference, or with the specification from the catalog.
  unfoldable pub refer : TektonTask → PipelineTask → Result PipelineTask
  unfolding fetch_tokens split_on
  refer t task = elim t.task_ref.local [
    | some local ↦ ok (record task { task_ref = some local })
    | none ↦
        if t.task_ref.catalog == []
        then err (failed (str "both local task and catalog are nil"))
        else do
          spec ← fetch_tokens (split_on b'@' t.task_ref.catalog)
          ok (record task { task_spec = some spec })
  ]

  unfoldable pub generate_tekton_task_run_task :
      Job → TektonTask → PipelineTask → Result (PipelineTask × List ResourceBinding)
  unfolding refer convert_to_tekton_param bind_resources run_resources
  generate_tekton_task_run_task j t target = do
    task ← refer t target
    ok (
      record task {
        params = task.params ++ map convert_to_tekton_param t.params;
        resources = elim t.resources [ none ↦ none | some r ↦ some (bind_resources j.name r) ];
        workspaces = task.workspaces ++ t.workspaces;
      },
      run_resources j.name t.resources,
    )

  module _ (git_image : Str) (job : IntegrationJob) (j : Job) where
    unfoldable pub generate_approval_run_task :
        JobApproval → Result (PipelineTask × List ResourceBinding)
    unfolding custom_task generate_approval_params
    generate_approval_run_task approval = do
      params ← generate_approval_params job j approval
      ok (custom_task j.name (str "ApprovalTask") params, [])

    -- The task by what the job asks for, before the fields that all tasks have.
    unfoldable pub task_of :
        Option TektonTask
        → Option JobApproval
        → Option NotiEmail
        → Option NotiSlack
        → Result (PipelineTask × List ResourceBinding)
    unfolding generate_tekton_task_run_task generate_approval_run_task custom_task script_task
        generate_email_run_params generate_slack_run_params named_task
    task_of (some t) a e s = generate_tekton_task_run_task j t (named_task j.name)
    task_of none (some a) e s = generate_approval_run_task a
    task_of none none (some e) s =
        ok (custom_task j.name (str "EmailTask") (generate_email_run_params job j e), [])
    task_of none none none (some s) =
        ok (custom_task j.name (str "SlackTask") (generate_slack_run_params job j s), [])
    task_of none none none none = ok (script_task git_image job j, [])

    unfoldable pub with_results : Option TaskSpec → Option TaskSpec
    with_results none = none
    with_results (some spec) = some (record spec { results = spec.results ++ j.results })

    unfoldable pub generate_task : Result (PipelineTask × List ResourceBinding)
    unfolding task_of with_results
    generate_task = do
      (task, resources) ← task_of j.tekton_task j.approval j.methods.email j.methods.slack
      ok (
        record task {
          run_after = task.run_after ++ j.after;
          when_expressions = task.when_expressions ++ j.tekton_when;
          task_spec = with_results task.task_spec;
        },
        resources,
      )
