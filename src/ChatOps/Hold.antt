-- ===== src/ChatOps/Hold.antt =====
-- pkg/chatops/plugins/hold/handlers_hold.go. `hold_label` is `configs.MergeBlockLabel`.
use cicd_operator.Base.{
  if◌then◌else◌, ◌==◌, nat_eq, Str, str, str_eq, Bool, true, false, ◌&&◌, none, some, List, [], ◌∷◌,
}
use cicd_operator.Api.{has_token}
use cicd_operator.Git.{PullRequest, PullRequestState, open_state, closed_state}
use cicd_operator.GitClient.{
  panicked, hold_help, set_label, register_comment, Server, Act, ◌>>◌, finish, throw, ask, send,
  send_delete,
}
use cicd_operator.ChatOps.{Handler}

unfoldable pub is_open : PullRequestState → Bool
is_open open_state = true
is_open closed_state = false

module _ (server : Server) (hold_label : Str) where
  -- The switch over the arguments.
  unfoldable pub hold_by_args : List Str → PullRequest → Act (Unit {0})
  hold_by_args [] pr = send server (set_label pr.id hold_label)
  hold_by_args (a ∷ []) pr =
      if a == str "cancel"
      then send_delete server pr.id hold_label
      else send server (register_comment pr.id hold_help)
  hold_by_args (a ∷ b ∷ args) pr = send server (register_comment pr.id hold_help)

  unfoldable pub handle_hold : Handler
  unfolding hold_by_args is_open
  handle_hold command webhook config = elim webhook.comment [
    | none ↦ throw panicked
    | some c ↦ elim c.pull [
      | none ↦ finish
      | some pr ↦
          if is_open pr.state && has_token config.git
          then (ask server.client >> hold_by_args command.args pr)
          else finish
    ]
  ]
