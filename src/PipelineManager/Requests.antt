-- ===== src/PipelineManager/Requests.antt =====
-- pkg/pipelinemanager/pipelinemanager.go: predicates of the requests that ReflectStatus makes.
use cicd_operator.Base.{◌==◌, nat_eq, Str, str_eq, Bool, not, ◌&&◌, List}
use cicd_operator.Api.{
  has_token, JobState, JobType, periodic, IntegrationJob, IntegrationConfig, state_eq,
}
use cicd_operator.Git.{status_eq}
use cicd_operator.GitClient.{Request, emit_event, Server, Act}
use cicd_operator.GitClient.Only.{Only, Only-bind, Only-ask, Only-if, Only-finish, Only-send}
use cicd_operator.PipelineManager.Report.{
  is_batch, post_all, unless_periodic, update_git_commit_status, emit_events, report,
}

module _ (P : Request → Type 0) (server : Server) (host : Str) where
  update-Only :
      (config : IntegrationConfig) (job : IntegrationJob) (flags : List Bool)
      → Only P (post_all server host job job.status.jobs flags)
      → Only P (update_git_commit_status server host config job flags)
  unfolding update_git_commit_status
  update-Only config job flags h =
      Only-if P (not (has_token config.git)) _ _ (λ _. Only-finish P)
        (λ _.
          Only-ask P server.client _
            (λ _ _. Only-if P (is_batch job.spec.refs) _ _ (λ _. Only-finish P) (λ _. h)))

  unless_periodic-Only :
      (type : JobType) (m : Act (Unit {0})) → Only P m → Only P (unless_periodic type m)
  unfolding unless_periodic
  unless_periodic-Only JobType.pre_submit m h = h
  unless_periodic-Only JobType.post_submit m h = h
  unless_periodic-Only periodic m h = Only-finish P

  module _ (events : (state : JobState) (text : Str) → P (emit_event state text)) where
    emit_events-Only :
        (job : IntegrationJob) (state : JobState) (text : Str)
        → Only P (emit_events server host job state text)
    unfolding emit_events
    emit_events-Only job state text =
        Only-if P ((state == job.status.state) && (text == job.status.message)) _ _
          (λ _. Only-finish P)
          (λ _.
            Only-send P server (emit_event job.status.state job.status.message)
              (events job.status.state job.status.message))

    pub report-Only :
        (config : IntegrationConfig) (job : IntegrationJob) (flags : List Bool) (state : JobState)
        (text : Str)
        → Only P (post_all server host job job.status.jobs flags)
        → Only P (report server host config job flags state text)
    unfolding report
    report-Only config job flags state text h =
        Only-bind P
          (unless_periodic job.spec.config_ref.type
            (update_git_commit_status server host config job flags))
          (λ _. emit_events server host job state text)
          (unless_periodic-Only job.spec.config_ref.type
            (update_git_commit_status server host config job flags)
            (update-Only config job flags h))
          (λ _. emit_events-Only job state text)
