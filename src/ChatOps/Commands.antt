-- ===== src/ChatOps/Commands.antt =====
-- cmd/webhook/main.go: the handlers that the web hook server registers, and what a comment makes them do.
use cicd_operator.Base.{nat_eq, Str, str, str_eq, Map, put, ℕ, Bool, Option, []}
use cicd_operator.GitClient.{Server}
use cicd_operator.ChatOps.{Handler}
use cicd_operator.ChatOps.Hold.{handle_hold}
use cicd_operator.ChatOps.Approve.{handle_approve}
use cicd_operator.ChatOps.Trigger.{handle_trigger}

abbrev pub register_command_handler : Str → Handler → Map Str Handler → Map Str Handler
register_command_handler command handler handlers = put command handler handlers

module _ (server : Server) (hold_label : Str) (compile : Str → Option (Str → Bool)) (ttl : ℕ)
    (job_id : Str) where
  unfoldable pub handlers : Map Str Handler
  handlers =
      let approve = handle_approve server in
      let trigger = handle_trigger server compile ttl job_id in
      register_command_handler (str "hold") (handle_hold server hold_label) (
        register_command_handler (str "retest") trigger (
          register_command_handler (str "test") trigger (
            register_command_handler (str "ci-approve") approve
              (register_command_handler (str "approve") approve []))))
