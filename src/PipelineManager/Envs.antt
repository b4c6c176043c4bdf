-- ===== src/PipelineManager/Envs.antt =====
-- pkg/pipelinemanager/env.go: the environment of the steps. `parse_url` is url.Parse.
use cicd_operator.Base.{Str, str, Option, none, some, List, [], ◌∷◌, ◌++◌}
use cicd_operator.Tekton.{EnvVar, TaskStep, TaskSpec, PipelineTask}
use cicd_operator.Api.{
  JobType, pre_submit, post_submit, periodic, Sender, RefsBase, RefsPull, JobSpec, IntegrationJob,
}
use cicd_operator.GitClient.{Result, ok}
use cicd_operator.GitClient.Results.{◌>>=◌, each}

pub record Url : Type 0 where
  pub scheme : Str
  pub host : Str

abbrev pub default_working_dir : Str
default_working_dir = str "/tekton/home/integ-source"

-- `JobType` is a string.
unfoldable pub job_type_text : JobType → Str
job_type_text pre_submit = str "preSubmit"
job_type_text post_submit = str "postSubmit"
job_type_text periodic = str "periodic"

abbrev pub env : Str → Str → EnvVar
env name value = record { name = name; value = value }

-- The loop that appends a field of each pull request, behind a blank.
unfoldable pub gather : (RefsPull → Str) → Str → List RefsPull → Str
gather f acc [] = acc
gather f acc (pull ∷ pulls) = gather f (acc ++ b' ' ∷ f pull) pulls

unfoldable pub sender_envs : Option Sender → List EnvVar
sender_envs none = []
sender_envs (some s) = env (str "CI_SENDER_NAME") s.name ∷ env (str "CI_SENDER_EMAIL") s.email ∷ []

unfoldable pub ref_envs : RefsBase → Option (List RefsPull) → List EnvVar
unfolding gather
ref_envs base none = env (str "CI_HEAD_SHA") base.sha ∷ env (str "CI_HEAD_REF") base.ref ∷ []
ref_envs base (some pulls) =
    env (str "CI_HEAD_SHA") (gather (λ p. p.sha) [] pulls)
    ∷ env (str "CI_HEAD_REF") (gather (λ p. p.ref) [] pulls)
    ∷ env (str "CI_BASE_SHA") base.sha
    ∷ env (str "CI_BASE_REF") base.ref
    ∷ []

unfoldable pub job_envs : JobSpec → Url → List EnvVar
unfolding job_type_text
job_envs spec u =
    env (str "CI") (str "true")
    ∷ env (str "CI_CONFIG_NAME") spec.config_ref.name
    ∷ env (str "CI_JOB_ID") spec.id
    ∷ env (str "CI_REPOSITORY") spec.refs.repository
    ∷ env (str "CI_EVENT_TYPE") (job_type_text spec.config_ref.type)
    ∷ env (str "CI_WORKSPACE") default_working_dir
    ∷ env (str "CI_SERVER_URL") (u.scheme ++ (str "://" ++ u.host))
    ∷ []

module _ (parse_url : Str → Result Url) where
  unfoldable pub generate_default_envs : IntegrationJob → Result (List EnvVar)
  unfolding job_envs sender_envs ref_envs
  generate_default_envs job = do
    u ← parse_url job.spec.refs.link
    let refs = job.spec.refs
    ok (job_envs job.spec u ++ (sender_envs refs.sender ++ ref_envs refs.base refs.pulls))

  -- The default values stand in front.
  unfoldable pub fill_step : IntegrationJob → TaskStep → Result TaskStep
  unfolding generate_default_envs
  fill_step job step = do
    envs ← generate_default_envs job
    let c = step.container
    ok (record step { container = record c { env = envs ++ c.env } })

  unfoldable pub fill_spec : IntegrationJob → PipelineTask → Option TaskSpec → Result PipelineTask
  unfolding fill_step each
  fill_spec job task none = ok task
  fill_spec job task (some spec) = do
    steps ← each (fill_step job) spec.steps
    ok (record task { task_spec = some (record spec { steps = steps }) })

  unfoldable pub fill_task : IntegrationJob → PipelineTask → Result PipelineTask
  unfolding fill_spec
  fill_task job task = fill_spec job task task.task_spec

  unfoldable pub fill_default_envs : List PipelineTask → IntegrationJob → Result (List PipelineTask)
  unfolding fill_task each
  fill_default_envs tasks job = each (fill_task job) tasks
