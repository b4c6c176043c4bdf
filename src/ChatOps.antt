-- ===== src/ChatOps.antt =====
-- pkg/chatops/chatops.go: the commands of a comment, and the handlers that they call.
pub mod Extract
pub mod Hold
pub mod Approve
pub mod Trigger
pub mod Commands
pub mod Permissions
use cicd_operator.Base.{
  leb, if◌then◌else◌, nat_beq, nat_eq, drop, Str, str_eq, split_on, Map, get, pos, negsuc, zero,
  suc, refl, Bool, false, ◌&&◌, none, some, List, [], ◌∷◌, arith,
}
use cicd_operator.Api.{IntegrationConfig}
use cicd_operator.Git.{Webhook}
use cicd_operator.GitClient.{Act, ◌>>◌, finish}

pub record Command : Type 0 where
  pub type : Str
  pub args : List Str

-- A line that begins with a slash and a small letter, and has a third character.
unfoldable pub is_command : Str → Bool
is_command [] = false
is_command (a ∷ []) = false
is_command (a ∷ b ∷ []) = false
is_command (a ∷ b ∷ c ∷ l) = nat_beq a b'/' && (leb b'a' b && leb b b'z')

unfoldable pub command_of : List Str → Command
command_of [] = record { type = []; args = [] }
command_of (t ∷ tokens) = record { type = drop 1 t; args = tokens }

unfoldable pub commands_of : List Str → List Command
unfolding is_command command_of split_on
commands_of [] = []
commands_of (l ∷ lines) =
    let rest = commands_of lines in
    if is_command l then command_of (split_on b' ' l) ∷ rest else rest

unfoldable pub extract_commands : Str → List Command
unfolding commands_of split_on
extract_commands comment = commands_of (split_on 10 comment)

abbrev pub Handler : Type 0
Handler = Command → Webhook → IntegrationConfig → Act (Unit {0})

-- The loop of `Handle`: a command without a handler is passed over, an error ends it.
unfoldable pub run_commands :
    Map Str Handler → Webhook → IntegrationConfig → List Command → Act (Unit {0})
unfolding get
run_commands handlers webhook config [] = finish
run_commands handlers webhook config (c ∷ commands) =
    let rest = run_commands handlers webhook config commands in
    elim (get c.type handlers) [ none ↦ rest | some handler ↦ handler c webhook config >> rest ]

unfoldable pub handle_comment : Map Str Handler → Webhook → IntegrationConfig → Act (Unit {0})
unfolding run_commands extract_commands
handle_comment handlers webhook config = elim webhook.comment [
  | none ↦ finish
  | some c ↦ run_commands handlers webhook config (extract_commands c.body)
]
