-- ===== src/PipelineManager/Report.antt =====
-- pkg/pipelinemanager/pipelinemanager.go: the commit statuses and the events of a job. `host` is
-- `configs.CurrentExternalHostName`.
use cicd_operator.Base.{
  ltb, if◌then◌else◌, ◌==◌, nat_eq, length, Str, str, str_eq, ℕ, Bool, false, not, ◌&&◌, Option,
  none, some, List, [], ◌∷◌, ◌++◌,
}
use cicd_operator.Api.{
  has_token, JobState, JobType, periodic, RunStatus, IntegrationJob, IntegrationConfig, Refs,
  state_eq,
}
use cicd_operator.Git.{StatusState, success, failure, status_eq, CommitStatus}
use cicd_operator.GitClient.{
  panicked, ok, err, set_commit_status, emit_event, Server, Act, ◌>>◌, finish, throw, ask, send,
}
use cicd_operator.PipelineManager.Description.{
  job_message_pending, job_message_successful, job_message_failure, append_base_sha_to_description,
}
use cicd_operator.PipelineManager.Reflect.{PipelineRun, reflect}

unfoldable pub message_of : StatusState → Str
message_of success = job_message_successful
message_of failure = job_message_failure
message_of _ = job_message_pending

-- The description of a commit status, with the base commit for a pull request.
unfoldable pub description_of : Refs → StatusState → Option Str
unfolding message_of append_base_sha_to_description
description_of refs state = elim refs.pulls [
  | none ↦ some (message_of state)
  | some pulls ↦ append_base_sha_to_description (message_of state) refs.base.sha
]

-- The commit that gets the statuses.
unfoldable pub head_sha : Refs → Option Str
head_sha refs = elim refs.pulls [
  | none ↦ some refs.base.sha
  | some pulls ↦ elim pulls [ [] ↦ none | p ∷ l ↦ some p.sha ]
]

unfoldable pub is_batch : Refs → Bool
is_batch refs = elim refs.pulls [ none ↦ false | some pulls ↦ ltb 1 (length pulls) ]

unfoldable pub get_report_server_address : Str → IntegrationJob → Str → Str
get_report_server_address host job name =
    str "http://"
    ++ (host ++ (str "/report/" ++ (job.namespace ++ (b'/' ∷ (job.name ++ (b'/' ∷ name))))))

unfoldable pub unless_periodic : JobType → Act (Unit {0}) → Act (Unit {0})
unless_periodic periodic m = finish
unless_periodic _ m = m

module _ (server : Server) (host : Str) where
  unfoldable pub commit_status : IntegrationJob → RunStatus → Str → CommitStatus
  unfolding get_report_server_address
  commit_status job s description = record {
    context = s.name;
    state = s.state;
    description = description;
    target_url = get_report_server_address host job s.name;
  }

  -- An error of `SetCommitStatus` is only logged.
  unfoldable pub post : IntegrationJob → RunStatus → Option Str → Option Str → Act (Unit {0})
  unfolding commit_status
  post job s (some description) (some sha) log =
      (ok tt, set_commit_status sha (commit_status job s description) ∷ log)
  post job s _ _ log = (err panicked, log)

  -- The loop over the statuses; fewer flags than statuses are an index out of range.
  unfoldable pub post_all : IntegrationJob → List RunStatus → List Bool → Act (Unit {0})
  post_all job [] flags = finish
  post_all job (s ∷ statuses) [] = throw panicked
  post_all job (s ∷ statuses) (changed ∷ flags) =
      let rest = post_all job statuses flags in
      if changed
      then (post job s (description_of job.spec.refs s.state) (head_sha job.spec.refs) >> rest)
      else rest

  unfoldable pub update_git_commit_status :
      IntegrationConfig → IntegrationJob → List Bool → Act (Unit {0})
  unfolding is_batch post_all
  update_git_commit_status config job flags =
      if not (has_token config.git)
      then finish
      else (ask server.client
          >> (if is_batch job.spec.refs then finish else post_all job job.status.jobs flags))

  unfoldable pub emit_events : IntegrationJob → JobState → Str → Act (Unit {0})
  emit_events job old_state old_message =
      if (old_state == job.status.state) && (old_message == job.status.message)
      then finish
      else send server (emit_event job.status.state job.status.message)

  -- What ReflectStatus reports.
  unfoldable pub report :
      IntegrationConfig → IntegrationJob → List Bool → JobState → Str → Act (Unit {0})
  unfolding unless_periodic update_git_commit_status emit_events
  report config job flags old_state old_message =
      unless_periodic job.spec.config_ref.type (update_git_commit_status config job flags)
      >> emit_events job old_state old_message

  -- `ReflectStatus`: the job as it is left, also by an error, and what is asked of the servers.
  unfoldable pub reflect_status :
      (RunStatus → Option Str)
      → ℕ
      → Option PipelineRun
      → IntegrationConfig
      → IntegrationJob
      → IntegrationJob × Act (Unit {0})
  reflect_status notify now run config job =
      elim (reflect notify now run job.spec.jobs job.status) [
        | none ↦ (job, throw panicked)
        | some (s, flags) ↦
            let job' = record job { status = s } in
            (job', report config job' flags job.status.state job.status.message)
      ]
