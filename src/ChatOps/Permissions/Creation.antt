-- ===== src/ChatOps/Permissions/Creation.antt =====
-- pkg/chatops/plugins/trigger/handlers_trigger.go: the requests of the trigger commands.
use cicd_operator.Base.{
  nat_beq_iff, nat_eq, Str, str_eq, ℕ, ◌≡◌, refl, inl, inr, Bool, Option, none, some, List, [], ◌∷◌,
  arith,
}
use cicd_operator.Api.{has_token, IntegrationConfig, IntegrationJob}
use cicd_operator.Git.{Webhook, PullRequest, User}
use cicd_operator.GitClient.{
  Failure, unauthorized, failed, panicked, Result, ok, err, CommentText, Request, create_job,
  Server, Result-cases, finish, send,
}
use cicd_operator.GitClient.Only.{
  Only, Only-ask, Only-if, Only-list, Only-option, Only-finish, Only-send,
}
use cicd_operator.Dispatcher.{generate_pre_submit}
use cicd_operator.ChatOps.{Command}
use cicd_operator.ChatOps.Trigger.{
  authorize_trigger, register_unauthorized_comment, handle_retest_command, create_narrowed,
  handle_test_command, trigger_by_args, after_authorize, narrowed,
}
use cicd_operator.ChatOps.Permissions.{MayTrigger, Permitted, comment-Only}

module _ (server : Server) (hold_label : Str) where
  module _ (sender : User) (pr : PullRequest) where
    abbrev Allowed : Request → Type 0
    Allowed = Permitted server hold_label sender pr

    pub authorize_trigger_lem :
        (config : IntegrationConfig) (log : List Request)
        → (authorize_trigger server config sender pr.author log).0 ≡ ok tt
        → MayTrigger server hold_label sender pr
    unfolding authorize_trigger
    authorize_trigger_lem config log h =
        elim (Result-cases (server.can_user_write_to_repo sender)) [
          | inl (b, e) ↦ elim (Result-cases server.client) [
            | inl (u, q) ↦ ground (arith, e, q, nat_beq_iff sender.id pr.author.id)
            | inr (x, q) ↦ ground (arith, e, q, nat_beq_iff sender.id pr.author.id)
          ]
          | inr (x, e) ↦ elim (Result-cases server.client) [
            | inl (u, q) ↦ ground (arith, e, q, nat_beq_iff sender.id pr.author.id)
            | inr (x, q) ↦ ground (arith, e, q, nat_beq_iff sender.id pr.author.id)
          ]
        ]

    register_unauthorized-Only :
        (config : IntegrationConfig) (e : Failure)
        → Only Allowed (register_unauthorized_comment server config pr.id e)
    unfolding register_unauthorized_comment
    register_unauthorized-Only config (unauthorized user repo) log all =
        Only-if Allowed (has_token config.git) _ _
          (λ _. Only-ask Allowed server.client _ (λ _ _.
            comment-Only server hold_label sender pr (CommentText.trigger_unauthorized user repo)))
          (λ _. Only-finish Allowed) log all
    register_unauthorized-Only config (failed e) log all = all
    register_unauthorized-Only config panicked log all = all

    create-Only :
        (job : IntegrationJob)
        → MayTrigger server hold_label sender pr
        → Only Allowed (send server (create_job job))
    unfolding Permitted
    create-Only job m = Only-send Allowed server (create_job job) m

    create_narrowed-Only :
        (compile : Str → Option (Str → Bool)) (ttl : ℕ) (job_id : Str)
        (r : Option (Result IntegrationJob))
        → MayTrigger server hold_label sender pr
        → Only Allowed (create_narrowed server compile ttl job_id r)
    unfolding create_narrowed
    create_narrowed-Only compile ttl job_id none m log all = all
    create_narrowed-Only compile ttl job_id (some (err e)) m log all = all
    create_narrowed-Only compile ttl job_id (some (ok job)) m log all =
        Only-list Allowed job.spec.jobs finish (λ j jobs. send server (create_job job))
          (Only-finish Allowed) (λ _ _. create-Only job m) log all

    retest-Only :
        (compile : Str → Option (Str → Bool)) (ttl : ℕ) (job_id : Str) (webhook : Webhook)
        (config : IntegrationConfig)
        → MayTrigger server hold_label sender pr
        → Only Allowed (handle_retest_command server compile ttl job_id webhook pr config)
    unfolding handle_retest_command
    retest-Only compile ttl job_id webhook config m =
        Only-option Allowed
          (generate_pre_submit compile ttl job_id (pr ∷ []) webhook.repo webhook.sender config) _ _
          (λ _ log all. all)
          (λ o _. Only-option Allowed o _ _ (λ _. Only-finish Allowed) (λ job _. create-Only job m))

    test-Only :
        (compile : Str → Option (Str → Bool)) (ttl : ℕ) (job_id target : Str) (webhook : Webhook)
        (config : IntegrationConfig)
        → MayTrigger server hold_label sender pr
        → Only Allowed (handle_test_command server compile ttl job_id target webhook pr config)
    unfolding handle_test_command
    test-Only compile ttl job_id target webhook config m =
        Only-option Allowed
          (generate_pre_submit compile ttl job_id (pr ∷ []) webhook.repo webhook.sender config) _ _
          (λ _ log all. all)
          (λ o _.
            Only-option Allowed o _ _ (λ _. Only-finish Allowed)
              (λ job _. create_narrowed-Only compile ttl job_id (narrowed target job) m))

    trigger_by_args-Only :
        (compile : Str → Option (Str → Bool)) (ttl : ℕ) (job_id : Str) (args : List Str)
        (webhook : Webhook) (config : IntegrationConfig)
        → MayTrigger server hold_label sender pr
        → Only Allowed (trigger_by_args server compile ttl job_id args webhook pr config)
    unfolding trigger_by_args
    trigger_by_args-Only compile ttl job_id [] webhook config m =
        retest-Only compile ttl job_id webhook config m
    trigger_by_args-Only compile ttl job_id (a ∷ args) webhook config m =
        test-Only compile ttl job_id a webhook config m

    pub after_authorize-Only :
        (compile : Str → Option (Str → Bool)) (ttl : ℕ) (job_id : Str) (r : Result (Unit {0}))
        (command : Command) (webhook : Webhook) (config : IntegrationConfig)
        → (r ≡ ok tt → MayTrigger server hold_label sender pr)
        → Only Allowed (after_authorize server compile ttl job_id r command webhook pr config)
    unfolding after_authorize
    after_authorize-Only compile ttl job_id (ok u) command webhook config m =
        trigger_by_args-Only compile ttl job_id command.args webhook config (m refl)
    after_authorize-Only compile ttl job_id (err e) command webhook config m =
        register_unauthorized-Only config e
