-- ===== src/ChatOps/Permissions.antt =====
-- Who may make the commands of a comment change labels and create jobs (pkg/chatops).
pub mod Creation
pub mod Comment
use cicd_operator.Base.{
  nat_beq_iff, ◌==◌, nat_eq, Str, str, str_eq, pos, negsuc, zero, suc, ◌≡◌, refl, ◌≢◌, ◌⊎◌, inl,
  inr, Bool, true, false, List, [], ◌∷◌, arith,
}
use cicd_operator.Api.{IntegrationConfig}
use cicd_operator.Git.{PullRequest, User}
use cicd_operator.GitClient.{
  unauthorized, failed, panicked, Result, ok, err, CommentText, Request, set_label, delete_label,
  register_comment, create_job, Server, Act, Result-cases, send,
}
use cicd_operator.GitClient.Only.{
  Only, Only-send-then, Only-send_delete-then, Only-ask, Only-if, Only-finish, Only-send,
  Only-send_delete,
}
use cicd_operator.ChatOps.Hold.{hold_by_args}
use cicd_operator.ChatOps.Approve.{
  approved_label, authorize_approval, unless_authorized, handle_approve_command,
  handle_approve_cancel, sync_approval, handle_approve_check, approve_by_args, has_label,
  check_approval, sort_comments,
}

module _ (server : Server) (hold_label : Str) where
  module _ (sender : User) (pr : PullRequest) where
    -- The sender may write to the repository, and is not the author of the pull request.
    abbrev pub MayApprove : Type 0
    MayApprove = (sender.id ≢ pr.author.id) × (server.can_user_write_to_repo sender ≡ ok true)

    -- The sender is the author of the pull request, or may write to the repository.
    abbrev pub MayTrigger : Type 0
    MayTrigger = (sender.id ≡ pr.author.id) ⊎ (server.can_user_write_to_repo sender ≡ ok true)

    -- Who a request is allowed to.
    unfoldable pub Permitted : Request → Type 0
    Permitted (set_label id l) =
        (id ≡ pr.id) × ((l ≡ hold_label) ⊎ ((l ≡ approved_label) × MayApprove))
    Permitted (delete_label id l) =
        (id ≡ pr.id) × ((l ≡ hold_label) ⊎ ((l ≡ approved_label) × MayApprove))
    Permitted (register_comment id text) = id ≡ pr.id
    Permitted (create_job job) = MayTrigger
    Permitted _ = ⊥

    pub comment-Only :
        (text : CommentText) → Only Permitted (send server (register_comment pr.id text))
    unfolding Permitted
    comment-Only text = Only-send Permitted server (register_comment pr.id text) refl

    approve_command-Only :
        (author : User) → MayApprove → Only Permitted (handle_approve_command server author pr.id)
    unfolding handle_approve_command Permitted
    approve_command-Only author m =
        Only-send-then Permitted server (set_label pr.id approved_label)
          (send server (register_comment pr.id (CommentText.approved_by author.name)))
          (refl, inr (refl, m)) (comment-Only (CommentText.approved_by author.name))

    approve_cancel-Only :
        (author : User) → MayApprove → Only Permitted (handle_approve_cancel server author pr.id)
    unfolding handle_approve_cancel Permitted
    approve_cancel-Only author m =
        Only-send_delete-then Permitted server pr.id approved_label
          (send server (register_comment pr.id (CommentText.canceled_by author.name)))
          (refl, inr (refl, m)) (comment-Only (CommentText.canceled_by author.name))

    sync_approval-Only :
        (a b : Bool) (author : User)
        → MayApprove
        → Only Permitted (sync_approval server a b author pr.id)
    unfolding sync_approval
    sync_approval-Only false true author m = approve_command-Only author m
    sync_approval-Only true false author m = approve_cancel-Only author m
    sync_approval-Only false false author m = Only-finish Permitted
    sync_approval-Only true true author m = Only-finish Permitted

    approve_check-Only :
        (author : User) → MayApprove → Only Permitted (handle_approve_check server author pr.id)
    unfolding handle_approve_check
    approve_check-Only author m = Only-ask Permitted (server.list_labels pr.id) _ (λ labels _.
        Only-ask Permitted (server.list_comments pr.id) _ (λ comments _.
          sync_approval-Only (has_label approved_label labels)
            (check_approval (sort_comments comments)) author m))

    approve_by_args-Only :
        (args : List Str) (author : User)
        → MayApprove
        → Only Permitted (approve_by_args server args author pr.id)
    unfolding approve_by_args
    approve_by_args-Only [] author m = approve_command-Only author m
    approve_by_args-Only (a ∷ []) author m =
        Only-if Permitted (a == str "cancel") _ _ (λ _. approve_cancel-Only author m)
          (λ _.
            Only-if Permitted (a == str "check") _ _ (λ _. approve_check-Only author m)
              (λ _. comment-Only CommentText.approve_help))
    approve_by_args-Only (a ∷ b ∷ args) author m = comment-Only CommentText.approve_help

    pub hold_by_args-Only :
        (args : List Str) → Only Permitted (hold_by_args server hold_label args pr)
    unfolding hold_by_args Permitted
    hold_by_args-Only [] = Only-send Permitted server (set_label pr.id hold_label) (refl, inl refl)
    hold_by_args-Only (a ∷ []) =
        Only-if Permitted (a == str "cancel") _ _
          (λ _. Only-send_delete Permitted server pr.id hold_label (refl, inl refl))
          (λ _. comment-Only CommentText.hold_help)
    hold_by_args-Only (a ∷ b ∷ args) = comment-Only CommentText.hold_help

    unless_authorized-Only :
        (r : Result (Unit {0})) (refuse : Str → Act (Unit {0})) (go : Act (Unit {0}))
        → ((user : Str) → Only Permitted (refuse user))
        → (r ≡ ok tt → Only Permitted go)
        → Only Permitted (unless_authorized server r refuse go)
    unfolding unless_authorized
    unless_authorized-Only (ok u) refuse go h g log all = g refl log all
    unless_authorized-Only (err (unauthorized user repo)) refuse go h g log all = h user log all
    unless_authorized-Only (err (failed e)) refuse go h g log all = all
    unless_authorized-Only (err panicked) refuse go h g log all = all

    authorize_approval_lem :
        (config : IntegrationConfig) (log : List Request)
        → (authorize_approval server config sender pr.author log).0 ≡ ok tt
        → MayApprove
    unfolding authorize_approval
    authorize_approval_lem config log h =
        elim (Result-cases (server.can_user_write_to_repo sender)) [
          | inl (b, e) ↦ ground (arith, e, nat_beq_iff sender.id pr.author.id)
          | inr (x, e) ↦ ground (arith, e, nat_beq_iff sender.id pr.author.id)
        ]

    pub approve_body-Only :
        (config : IntegrationConfig) (args : List Str) (author : User)
        → Only Permitted (λ log.
          unless_authorized server
            (authorize_approval server config sender pr.author log).0
            (λ user. send server (register_comment pr.id (CommentText.approve_unauthorized user)))
            (approve_by_args server args author pr.id)
            log)
    approve_body-Only config args author log =
        unless_authorized-Only (authorize_approval server config sender pr.author log).0
          (λ user. send server (register_comment pr.id (CommentText.approve_unauthorized user)))
          (approve_by_args server args author pr.id)
          (λ user. comment-Only (CommentText.approve_unauthorized user))
          (λ e. approve_by_args-Only args author (authorize_approval_lem config log e)) log
