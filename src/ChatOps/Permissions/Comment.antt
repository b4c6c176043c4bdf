-- ===== src/ChatOps/Permissions/Comment.antt =====
-- pkg/chatops/chatops.go with the handlers of cmd/webhook/main.go: what one comment may do.
use cicd_operator.Base.{
  if◌then◌else◌, Bool-cases, ◌==◌, nat_eq, All, Str, str, str_eq, Map, get, put, get-put, ℕ, ◌≡◌,
  sym, inl, inr, Bool, ◌&&◌, Option, some, List, [], ◌∷◌, arith,
}
use mathlib.Core.Path.{subst}
use cicd_operator.Api.{has_token, IntegrationConfig}
use cicd_operator.Git.{Webhook, IssueComment, PullRequest}
use cicd_operator.GitClient.{Request, Server, Act, finish}
use cicd_operator.GitClient.Only.{Only, Only-bind, Only-ask, Only-if, Only-option, Only-finish}
use cicd_operator.ChatOps.{Command, Handler, run_commands, handle_comment, extract_commands}
use cicd_operator.ChatOps.Hold.{is_open, handle_hold}
use cicd_operator.ChatOps.Approve.{handle_approve}
use cicd_operator.ChatOps.Trigger.{authorize_trigger, after_authorize, handle_trigger}
use cicd_operator.ChatOps.Commands.{handlers}
use cicd_operator.ChatOps.Permissions.{Permitted, approve_body-Only, hold_by_args-Only}
use cicd_operator.ChatOps.Permissions.Creation.{after_authorize-Only, authorize_trigger_lem}

module _ (server : Server) (hold_label : Str) (webhook : Webhook) (config : IntegrationConfig)
    (c : IssueComment) (pr : PullRequest) (on : webhook.comment ≡ some c)
    (of : c.pull ≡ some pr) where
  abbrev Allowed : Request → Type 0
  Allowed = Permitted server hold_label webhook.sender pr

  handle_approve-Only :
      (command : Command) → Only Allowed (handle_approve server command webhook config)
  unfolding handle_approve
  handle_approve-Only command =
      rw (on, of)
        (Only-if Allowed (is_open pr.state && has_token config.git) _ _
          (λ _. Only-ask Allowed server.client _ (λ _ _.
            approve_body-Only server hold_label webhook.sender pr config command.args c.author))
          (λ _. Only-finish Allowed))

  handle_hold-Only :
      (command : Command) → Only Allowed (handle_hold server hold_label command webhook config)
  unfolding handle_hold
  handle_hold-Only command =
      rw (on, of)
        (Only-if Allowed (is_open pr.state && has_token config.git) _ _
          (λ _.
            Only-ask Allowed server.client _
              (λ _ _. hold_by_args-Only server hold_label webhook.sender pr command.args))
          (λ _. Only-finish Allowed))

  module _ (compile : Str → Option (Str → Bool)) (ttl : ℕ) (job_id : Str) where
    abbrev trigger_body : Command → PullRequest → Act (Unit {0})
    trigger_body command q =
        if is_open q.state
        then (λ log.
            after_authorize server compile ttl job_id
              (authorize_trigger server config webhook.sender q.author log).0 command webhook q
              config log)
        else finish

    trigger_body-Only : (command : Command) → Only Allowed (trigger_body command pr)
    trigger_body-Only command =
        Only-if Allowed (is_open pr.state) _ _
          (λ _ log.
            after_authorize-Only server hold_label webhook.sender pr compile ttl job_id
              (authorize_trigger server config webhook.sender pr.author log).0 command webhook
              config (λ e. authorize_trigger_lem server hold_label webhook.sender pr config log e)
              log)
          (λ _. Only-finish Allowed)

    handle_trigger-Only :
        (command : Command)
        → Only Allowed (handle_trigger server compile ttl job_id command webhook config)
    unfolding handle_trigger
    handle_trigger-Only command =
        Only-option Allowed webhook.comment _ _ (λ _ log all. all)
          (λ d e.
            Only-option Allowed d.pull _ _ (λ _. Only-finish Allowed)
              (λ q o.
                let same : q ≡ pr = cc (on, of, e, o) in
                subst (λ z. Only Allowed (trigger_body command z)) (sym same)
                  (trigger_body-Only command)))

    -- Each handler of a map makes allowed requests only.
    abbrev AllOnly : Map Str Handler → Type 0
    AllOnly table =
        (name : Str) (h : Handler)
        → get name table ≡ some h
        → (command : Command) → Only Allowed (h command webhook config)

    run_commands-Only :
        (table : Map Str Handler) (commands : List Command)
        → AllOnly table
        → Only Allowed (run_commands table webhook config commands)
    unfolding run_commands
    run_commands-Only table [] h = Only-finish Allowed
    run_commands-Only table (x ∷ commands) h =
        Only-option Allowed (get x.type table) _ _ (λ _. run_commands-Only table commands h)
          (λ handler e.
            Only-bind Allowed (handler x webhook config)
              (λ _. run_commands table webhook config commands) (h x.type handler e x)
              (λ _. run_commands-Only table commands h))

    AllOnly-put :
        (name : Str) (h : Handler) (m : Map Str Handler)
        → ((command : Command) → Only Allowed (h command webhook config))
        → AllOnly m
        → AllOnly (put name h m)
    AllOnly-put name h m new old j k e = elim (Bool-cases (name == j)) [
      | inl t ↦
          let found : h ≡ k = ground (arith, get-put name j h m, t, e) in
          subst (λ z. (command : Command) → Only Allowed (z command webhook config)) found new
      | inr f ↦
          let found : get j m ≡ some k = ground (arith, get-put name j h m, f, e) in old j k found
    ]

    handlers-AllOnly : AllOnly (handlers server hold_label compile ttl job_id)
    unfolding handlers get
    handlers-AllOnly =
        let none_yet : AllOnly [] = λ name h e. ground (arith, e) in
        AllOnly-put (str "hold") _ _ handle_hold-Only (
          AllOnly-put (str "retest") _ _ handle_trigger-Only (
            AllOnly-put (str "test") _ _ handle_trigger-Only (
              AllOnly-put (str "ci-approve") _ _ handle_approve-Only
                (AllOnly-put (str "approve") _ _ handle_approve-Only none_yet))))

    -- Whatever a comment on a pull request says, a command of it touches the pull request it stands on, and
    -- nothing else. It sets or removes the hold label, or it sets or removes the approved label, and then the
    -- sender may write to the repository and is not the author; a job is created only if the sender is
    -- the author or may write to the repository.
    pub handle_comment-Permitted :
        All
          (Permitted server hold_label webhook.sender pr)
          (handle_comment (handlers server hold_label compile ttl job_id) webhook config []).1
    unfolding handle_comment
    handle_comment-Permitted =
        Only-option Allowed webhook.comment _ _ (λ _. Only-finish Allowed)
          (λ d _.
            run_commands-Only (handlers server hold_label compile ttl job_id)
              (extract_commands d.body) handlers-AllOnly)
          [] tt
