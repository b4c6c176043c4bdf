-- ===== src/ChatOps/Approve.antt =====
-- pkg/chatops/plugins/approve/handlers_approve.go. Comments of one time keep their order when they are sorted.
pub mod Decision
use cicd_operator.Base.{
  ltb, if◌then◌else◌, ◌==◌, nat_eq, Str, str, str_eq, pos, negsuc, ℕ, zero, suc, refl, Bool, true,
  false, not, ◌&&◌, ◌||◌, Option, none, some, List, [], ◌∷◌, arith,
}
use cicd_operator.Api.{has_token, IntegrationConfig}
use cicd_operator.Git.{
  Webhook, IssueComment, PullRequest, User, approved, changes_requested, pull_request,
  pull_request_review, PullRequestAction, labeled, unlabeled,
}
use cicd_operator.GitClient.{
  unauthorized, failed, panicked, Result, ok, err, approve_unauthorized, approved_by, canceled_by,
  approve_help, set_label, register_comment, Server, Act, ◌>>=◌, ◌>>◌, finish, throw, ask, send,
  send_delete,
}
use cicd_operator.ChatOps.{Command, Handler, extract_commands}
use cicd_operator.ChatOps.Hold.{is_open}

abbrev pub approved_label : Str
approved_label = str "approved"

unfoldable pub has_label : Str → List Str → Bool
has_label name [] = false
has_label name (l ∷ labels) = l == name || has_label name labels

-- The newest first.
unfoldable pub insert_comment : IssueComment → List IssueComment → List IssueComment
insert_comment c [] = c ∷ []
insert_comment c (d ∷ l) =
    let rest = insert_comment c l in if ltb c.created_at d.created_at then d ∷ rest else c ∷ d ∷ l

unfoldable pub sort_comments : List IssueComment → List IssueComment
unfolding insert_comment
sort_comments [] = []
sort_comments (c ∷ l) = insert_comment c (sort_comments l)

-- What a command says: approved, canceled, or nothing.
unfoldable pub decide_args : List Str → Option Bool
decide_args [] = some true
decide_args (a ∷ []) = if a == str "cancel" then some false else none
decide_args (a ∷ b ∷ args) = none

unfoldable pub decide_commands : List Command → Option Bool
unfolding decide_args
decide_commands [] = none
decide_commands (c ∷ commands) =
    let rest = decide_commands commands in
    if c.type == str "approve"
    then (elim (decide_args c.args) [ none ↦ rest | some b ↦ some b ])
    else rest

unfoldable pub decide_comment : IssueComment → Option Bool
unfolding decide_commands extract_commands
decide_comment c = elim c.review_state [
  | some approved ↦ some true
  | some changes_requested ↦ some false
  | none ↦ decide_commands (extract_commands c.body)
]

unfoldable pub check_approval : List IssueComment → Bool
unfolding decide_comment
check_approval [] = false
check_approval (c ∷ comments) =
    let rest = check_approval comments in elim (decide_comment c) [ none ↦ rest | some b ↦ b ]

module _ (server : Server) where
  unfoldable pub authorize_approval : IntegrationConfig → User → User → Act (Unit {0})
  authorize_approval config sender author =
      if sender.id == author.id
      then throw (unauthorized sender.name config.git.repository)
      else (ask (server.can_user_write_to_repo sender) >>= λ (writes : Bool).
          if writes then finish else throw (unauthorized sender.name config.git.repository))

  -- What a handler does where the sender is not authorized; other errors end it.
  unfoldable pub unless_authorized :
      Result (Unit {0}) → (Str → Act (Unit {0})) → Act (Unit {0}) → Act (Unit {0})
  unless_authorized (ok u) refuse go = go
  unless_authorized (err (unauthorized user repo)) refuse go = refuse user
  unless_authorized (err (failed e)) refuse go = throw (failed e)
  unless_authorized (err panicked) refuse go = throw panicked

  unfoldable pub handle_approve_command : User → ℕ → Act (Unit {0})
  handle_approve_command author id =
      send server (set_label id approved_label)
      >> send server (register_comment id (approved_by author.name))

  unfoldable pub handle_approve_cancel : User → ℕ → Act (Unit {0})
  handle_approve_cancel author id =
      send_delete server id approved_label
      >> send server (register_comment id (canceled_by author.name))

  unfoldable pub sync_approval : Bool → Bool → User → ℕ → Act (Unit {0})
  unfolding handle_approve_command handle_approve_cancel
  sync_approval false true author id = handle_approve_command author id
  sync_approval true false author id = handle_approve_cancel author id
  sync_approval _ _ author id = finish

  unfoldable pub handle_approve_check : User → ℕ → Act (Unit {0})
  unfolding sync_approval check_approval sort_comments has_label
  handle_approve_check author id = do
    labels ← ask (server.list_labels id)
    comments ← ask (server.list_comments id)
    sync_approval (has_label approved_label labels) (check_approval (sort_comments comments)) author
        id

  unfoldable pub approve_by_args : List Str → User → ℕ → Act (Unit {0})
  unfolding handle_approve_command handle_approve_cancel handle_approve_check
  approve_by_args [] author id = handle_approve_command author id
  approve_by_args (a ∷ []) author id =
      if a == str "cancel"
      then handle_approve_cancel author id
      else if a == str "check"
      then handle_approve_check author id
      else send server (register_comment id approve_help)
  approve_by_args (a ∷ b ∷ args) author id = send server (register_comment id approve_help)

  -- `HandleChatOps`
  unfoldable pub handle_approve : Handler
  unfolding authorize_approval unless_authorized approve_by_args is_open
  handle_approve command webhook config = elim webhook.comment [
    | none ↦ throw panicked
    | some c ↦ elim c.pull [
      | none ↦ finish
      | some pr ↦
          if is_open pr.state && has_token config.git
          then (ask server.client >> (λ log.
              unless_authorized (authorize_approval config webhook.sender pr.author log).0
                (λ user. send server (register_comment pr.id (approve_unauthorized user)))
                (approve_by_args command.args c.author pr.id) log))
          else finish
    ]
  ]

  -- The label is set back where the sender may not change it.
  unfoldable pub revert_label : PullRequest → Str → Act (Unit {0})
  unfolding has_label
  revert_label pr user =
      (if has_label approved_label pr.labels
        then send_delete server pr.id approved_label
        else send server (set_label pr.id approved_label))
      >> send server (register_comment pr.id (approve_unauthorized user))

  unfoldable pub handle_label_event : Webhook → PullRequest → IntegrationConfig → Act (Unit {0})
  unfolding authorize_approval unless_authorized revert_label has_label
  handle_label_event webhook pr config =
      if has_label approved_label pr.label_changed
      then (λ log.
          unless_authorized (authorize_approval config webhook.sender pr.author log).0
            (revert_label pr) finish log)
      else finish

  unfoldable pub is_label_action : PullRequestAction → Bool
  is_label_action labeled = true
  is_label_action unlabeled = true
  is_label_action _ = false

  -- A review: its state decides.
  unfoldable pub handle_review : IssueComment → Act (Unit {0})
  unfolding handle_approve_command handle_approve_cancel is_open
  handle_review c = elim c.pull [
    | none ↦ throw panicked
    | some pr ↦
        if is_open pr.state
        then (elim c.review_state [
          | none ↦ finish
          | some approved ↦ ask server.client >> handle_approve_command c.author pr.id
          | some changes_requested ↦ ask server.client >> handle_approve_cancel c.author pr.id
        ])
        else finish
  ]

  -- `Handle`
  unfoldable pub handle_webhook : Webhook → IntegrationConfig → Act (Unit {0})
  unfolding handle_label_event is_label_action handle_review
  handle_webhook webhook config =
      if not (has_token config.git) then finish else elim webhook.event_type [
        | pull_request_review ↦ elim webhook.comment [ none ↦ finish | some c ↦ handle_review c ]
        | pull_request ↦ elim webhook.pull [
          | none ↦ finish
          | some pr ↦
              if is_label_action pr.action
              then (ask server.client >> handle_label_event webhook pr config)
              else finish
        ]
        | _ ↦ finish
      ]
