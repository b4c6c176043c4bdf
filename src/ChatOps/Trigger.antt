-- ===== src/ChatOps/Trigger.antt =====
-- pkg/chatops/plugins/trigger/handlers_trigger.go: the commands /test and /retest.
use cicd_operator.Base.{
  if◌then◌else◌, ◌==◌, nat_eq, Str, str, str_eq, ℕ, Bool, Option, none, some, List, [], ◌∷◌,
}
use cicd_operator.Api.{has_token, IntegrationConfig, IntegrationJob, Job}
use cicd_operator.Git.{Webhook, PullRequest, User}
use cicd_operator.GitClient.{
  Failure, unauthorized, failed, panicked, Result, ok, err, trigger_unauthorized, register_comment,
  create_job, Server, Act, ◌>>=◌, ◌>>◌, finish, throw, ask, send,
}
use cicd_operator.Dispatcher.{generate_pre_submit}
use cicd_operator.JobGraph.{filter_dependent_jobs}
use cicd_operator.ChatOps.{Command, Handler}
use cicd_operator.ChatOps.Hold.{is_open}

unfoldable pub with_jobs : IntegrationJob → List Job → IntegrationJob
with_jobs job jobs = record job { spec = record job.spec { jobs = jobs } }

-- The job of a `/test` after the filter. The outer none is the filter's.
unfoldable pub narrowed : Str → IntegrationJob → Option (Result IntegrationJob)
unfolding filter_dependent_jobs with_jobs
narrowed target job = elim (filter_dependent_jobs target job.spec.jobs) [
  | none ↦ none
  | some none ↦ some (err (failed (str "job graph is cyclic")))
  | some (some jobs) ↦ some (ok (with_jobs job jobs))
]

module _ (server : Server) where
  unfoldable pub authorize_trigger : IntegrationConfig → User → User → Act (Unit {0})
  authorize_trigger config sender author =
      if sender.id == author.id
      then finish
      else (ask server.client
          >> (ask (server.can_user_write_to_repo sender) >>= λ (writes : Bool).
              if writes then finish else throw (unauthorized sender.name config.git.repository)))

  unfoldable pub register_unauthorized_comment : IntegrationConfig → ℕ → Failure → Act (Unit {0})
  register_unauthorized_comment config id (unauthorized user repo) =
      if has_token config.git
      then (ask server.client >> send server (register_comment id (trigger_unauthorized user repo)))
      else finish
  register_unauthorized_comment config id (failed e) = throw (failed e)
  register_unauthorized_comment config id panicked = throw panicked

  module _ (compile : Str → Option (Str → Bool)) (ttl : ℕ) (job_id : Str) where
    -- `handleRetestCommand`
    unfoldable pub handle_retest_command :
        Webhook → PullRequest → IntegrationConfig → Act (Unit {0})
    unfolding generate_pre_submit
    handle_retest_command webhook pr config =
        elim (generate_pre_submit compile ttl job_id (pr ∷ []) webhook.repo webhook.sender config) [
          | none ↦ throw panicked
          | some none ↦ finish
          | some (some job) ↦ send server (create_job job)
        ]

    unfoldable pub create_narrowed : Option (Result IntegrationJob) → Act (Unit {0})
    create_narrowed none = throw panicked
    create_narrowed (some (err e)) = throw e
    create_narrowed (some (ok job)) = elim job.spec.jobs [
      | [] ↦ finish
      | j ∷ jobs ↦ send server (create_job job)
    ]

    -- `handleTestCommand`
    unfoldable pub handle_test_command :
        Str → Webhook → PullRequest → IntegrationConfig → Act (Unit {0})
    unfolding generate_pre_submit narrowed create_narrowed
    handle_test_command target webhook pr config =
        elim (generate_pre_submit compile ttl job_id (pr ∷ []) webhook.repo webhook.sender config) [
          | none ↦ throw panicked
          | some none ↦ finish
          | some (some job) ↦ create_narrowed (narrowed target job)
        ]

    unfoldable pub trigger_by_args :
        List Str → Webhook → PullRequest → IntegrationConfig → Act (Unit {0})
    unfolding handle_retest_command handle_test_command
    trigger_by_args [] webhook pr config = handle_retest_command webhook pr config
    trigger_by_args (a ∷ args) webhook pr config = handle_test_command a webhook pr config

    -- What follows `authorize`: an error ends the command.
    unfoldable pub after_authorize :
        Result (Unit {0}) → Command → Webhook → PullRequest → IntegrationConfig → Act (Unit {0})
    unfolding register_unauthorized_comment trigger_by_args
    after_authorize (ok u) command webhook pr config =
        trigger_by_args command.args webhook pr config
    after_authorize (err e) command webhook pr config = register_unauthorized_comment config pr.id e

    -- `HandleChatOps`
    unfoldable pub handle_trigger : Handler
    unfolding authorize_trigger after_authorize is_open
    handle_trigger command webhook config = elim webhook.comment [
      | none ↦ throw panicked
      | some c ↦ elim c.pull [
        | none ↦ finish
        | some pr ↦
            if is_open pr.state
            then (λ log.
                after_authorize (authorize_trigger config webhook.sender pr.author log).0 command
                  webhook pr config log)
            else finish
      ]
    ]
