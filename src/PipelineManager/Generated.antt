-- ===== src/PipelineManager/Generated.antt =====
-- pkg/pipelinemanager: the tasks and resources of a PipelineRun that Generate makes.
use cicd_operator.Base.{nat_eq, Str, str_eq, ◌≡◌, Option, none, some, List, [], ◌∷◌, ◌++◌, map}
use cicd_operator.Tekton.{
  EnvVar, TaskStep, ResourceBinding, TaskResource, TaskResources, DeclaredResource, TaskSpec,
  PipelineTask,
}
use cicd_operator.Api.{Job, IntegrationJob}
use cicd_operator.Api.Tasks.{TektonTask, JobApproval, NotiEmail, NotiSlack}
use cicd_operator.GitClient.{Result, ok}
use cicd_operator.GitClient.Results.{Pairwise}
use cicd_operator.PipelineManager.Envs.{generate_default_envs}
use cicd_operator.PipelineManager.Tasks.{generate_task}
use cicd_operator.PipelineManager.Generate.{Services}

-- The task of a job has its name, and what the job says of its order and conditions.
abbrev pub Runs : Job → PipelineTask → Type 0
Runs j t = (t.name ≡ j.name) × (t.run_after ≡ j.after) × (t.when_expressions ≡ j.tekton_when)

-- The names, in the run, of the resources that tasks bind.
abbrev pub resource_names : Option TaskResources → List Str
resource_names none = []
resource_names (some r) =
    map (λ (x : TaskResource). x.resource) r.inputs
    ++ map (λ (x : TaskResource). x.resource) r.outputs

abbrev pub bound_names : List PipelineTask → List Str
bound_names [] = []
bound_names (t ∷ l) = resource_names t.resources ++ bound_names l

abbrev pub binding_names : List ResourceBinding → List Str
binding_names = map (λ r. r.name)

-- What the task binds is what the run binds for it.
abbrev Binds : PipelineTask × List ResourceBinding → Type 0
Binds (t, l) = binding_names l ≡ resource_names t.resources

-- A task before the fields that all tasks have.
abbrev IsBare : Str → PipelineTask × List ResourceBinding → Type 0
IsBare name (t, l) = (t.name ≡ name) × (t.run_after ≡ []) × (t.when_expressions ≡ []) × Binds (t, l)

-- The environment of the job stands in front of the step's own; the rest of the step is as before.
abbrev pub Starts : Result (List EnvVar) → TaskStep → TaskStep → Type 0
Starts made before step =
    (envs : List EnvVar) × (made ≡ ok envs)
    × (step ≡ record before {
      container = record before.container { env = envs ++ before.container.env };
    })

-- A task in full before and after its steps are filled; a task by reference stays one.
abbrev pub Fills : Result (List EnvVar) → Option TaskSpec → Option TaskSpec → Type 0
Fills made none none = Unit {0}
Fills made none (some spec) = ⊥
Fills made (some before) none = ⊥
Fills made (some before) (some spec) = Pairwise (Starts made) before.steps spec.steps

-- The last step of the task runs the job's script, with the job's environment in front of that of its container.
abbrev pub EndsWithScript : Result (List EnvVar) → Job → Option TaskSpec → Type 0
EndsWithScript made j none = ⊥
EndsWithScript made j (some spec) =
    (before : List TaskStep) × (step : TaskStep) × (envs : List EnvVar) × (spec.steps
      ≡ before ++ step ∷ [])
    × (step.script ≡ j.script)
    × (made ≡ ok envs)
    × (step.container.env ≡ envs ++ j.container.env)

-- That is asked of a job that is no task of Tekton's, no approval and no notification.
abbrev pub RunsScript :
    Result (List EnvVar)
    → Job
    → Option TektonTask
    → Option JobApproval
    → Option NotiEmail
    → Option NotiSlack
    → Option TaskSpec
    → Type 0
RunsScript made j none none none none spec = EndsWithScript made j spec
RunsScript made j (some t) a e n spec = Unit {0}
RunsScript made j none (some a) e n spec = Unit {0}
RunsScript made j none none (some e) n spec = Unit {0}
RunsScript made j none none none (some n) spec = Unit {0}

module _ (s : Services) (job : IntegrationJob) where
  abbrev pub made : Result (List EnvVar)
  made = generate_default_envs s.parse_url job

  -- The task that generateTask makes of the job has its steps filled.
  abbrev pub IsTaskOf : Job → PipelineTask → Type 0
  IsTaskOf j t =
      Runs j t
      × ((u : PipelineTask) × (l : List ResourceBinding) × (generate_task s.fetch_catalog
              s.git_image job j
            ≡ ok (u, l))
          × Fills made u.task_spec t.task_spec)
      × RunsScript made j j.tekton_task j.approval j.methods.email j.methods.slack t.task_spec

  abbrev Filled : PipelineTask → PipelineTask → Type 0
  Filled t u =
      (u.name ≡ t.name)
      × (u.run_after ≡ t.run_after)
      × (u.when_expressions ≡ t.when_expressions)
      × (u.resources ≡ t.resources)
      × Fills made t.task_spec u.task_spec

  abbrev pub declared_names : List DeclaredResource → List Str
  declared_names = map (λ d. d.name)

  abbrev Makes : Job → PipelineTask → Type 0
  Makes j u =
      (l : List ResourceBinding) × (generate_task s.fetch_catalog s.git_image job j ≡ ok (u, l))

  abbrev AllRun :
      List Job → List PipelineTask × List ResourceBinding × List DeclaredResource → Type 0
  AllRun jobs p =
      Pairwise Makes jobs p.0
      × (binding_names p.1 ≡ bound_names p.0)
      × (declared_names p.2 ≡ bound_names p.0)
