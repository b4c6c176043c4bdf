-- ===== src/ChatOps/Extract.antt =====
-- pkg/chatops/chatops.go: a comment that is written from commands and other lines, and what Handle does on an error.
use cicd_operator.Base.{
  leb, Option-cases, nat_eq, All, Str, str_eq, join, split_on, Without, split_join, Map, get, ℕ,
  ◌≡◌, refl, ap, ◌∙◌, inl, inr, true, false, List, [], ◌∷◌, ◌++◌, map, arith,
}
use cicd_operator.Api.{IntegrationConfig}
use cicd_operator.Git.{Webhook}
use cicd_operator.GitClient.{Request, ◌>>◌, Result-cases}
use cicd_operator.ChatOps.{
  Command, Handler, is_command, command_of, commands_of, extract_commands, run_commands,
}

-- A line of a comment.
pub data Line : Type 0 where
  said : Command → Line
  plain : Str → Line

unfoldable pub print_line : Line → Str
unfolding join
print_line (said c) = join (b' ' ∷ []) ((b'/' ∷ c.type) ∷ c.args)
print_line (plain l) = l

-- A type of two letters at least begins with a small one. Its letters, and the arguments, have no blank.
unfoldable pub IsType : Str → Type 0
IsType [] = ⊥
IsType (a ∷ []) = ⊥
IsType (a ∷ b ∷ t) = (leb b'a' a ≡ true) × (leb a b'z' ≡ true) × Without b' ' (a ∷ b ∷ t)

unfoldable pub IsLine : Line → Type 0
unfolding is_command
IsLine (said c) =
    IsType c.type
    × All (Without b' ') c.args
    × Without 10 (join (b' ' ∷ []) ((b'/' ∷ c.type) ∷ c.args))
IsLine (plain l) = (is_command l ≡ false) × Without 10 l

unfoldable pub said_in : List Line → List Command
said_in [] = []
said_in (said c ∷ lines) = c ∷ said_in lines
said_in (plain l ∷ lines) = said_in lines

head_of :
    (sep a b c : ℕ) (t : Str) (args : List Str)
    → (r : Str) × (join (sep ∷ []) ((a ∷ b ∷ c ∷ t) ∷ args) ≡ a ∷ b ∷ c ∷ r)
unfolding join
head_of sep a b c t [] = (t, refl)
head_of sep a b c t (x ∷ args) = (t ++ (sep ∷ join (sep ∷ []) (x ∷ args)), refl)

command_line :
    (type : Str) (args : List Str)
    → IsType type
    → is_command (join (b' ' ∷ []) ((b'/' ∷ type) ∷ args)) ≡ true
unfolding IsType is_command
command_line [] args h = elim h [ ]
command_line (a ∷ []) args h = elim h [ ]
command_line (a ∷ b ∷ t) args h =
    let (r, e) = head_of b' ' b'/' a b t args in rw e (ground (arith, h.0, h.1))

IsType-Without : (type : Str) → IsType type → Without b' ' (b'/' ∷ type)
unfolding IsType
IsType-Without [] h = elim h [ ]
IsType-Without (a ∷ []) h = elim h [ ]
IsType-Without (a ∷ b ∷ t) h = (refl, h.2)

command_of_lem :
    (c : Command)
    → IsType c.type
    → All (Without b' ') c.args
    → command_of (split_on b' ' (join (b' ' ∷ []) ((b'/' ∷ c.type) ∷ c.args))) ≡ c
unfolding command_of
command_of_lem c h hs =
    rw (split_join b' ' (b'/' ∷ c.type) c.args (IsType-Without c.type h) hs) refl

commands_of_lem :
    (lines : List Line) → All IsLine lines → commands_of (map print_line lines) ≡ said_in lines
unfolding commands_of said_in print_line IsLine
commands_of_lem [] h = refl
commands_of_lem (said c ∷ lines) h = ground (
  arith,
  command_line c.type c.args h.0.0,
  command_of_lem c h.0.0 h.0.1,
  commands_of_lem lines h.1,
)
commands_of_lem (plain l ∷ lines) h = ground (arith, h.0.0, commands_of_lem lines h.1)

print_line-Without : (l : Line) → IsLine l → Without 10 (print_line l)
unfolding print_line IsLine
print_line-Without (said c) h = h.2
print_line-Without (plain l) h = h.1

print_lines-Without :
    (lines : List Line) → All IsLine lines → All (Without 10) (map print_line lines)
print_lines-Without [] h = tt
print_lines-Without (l ∷ lines) h = (print_line-Without l h.0, print_lines-Without lines h.1)

nothing_read : extract_commands [] ≡ []
unfolding extract_commands commands_of split_on is_command
nothing_read = refl

-- The commands that are read from a comment are those it was written from, in their order, whatever lines
-- stand between them that are no commands. A command's type has two letters at least, the first a
-- small one, no part of a command has a blank or a line break, and no other line has a line break.
pub extract_commands-print :
    (lines : List Line)
    → All IsLine lines
    → extract_commands (join (10 ∷ []) (map print_line lines)) ≡ said_in lines
unfolding extract_commands join said_in
extract_commands-print [] h = nothing_read
extract_commands-print (l ∷ lines) h =
    ap commands_of (
      split_join 10 (print_line l) (map print_line lines) (print_line-Without l h.0)
        (print_lines-Without lines h.1))
    ∙ commands_of_lem (l ∷ lines) h

-- Commands run in their order, and the first error ends them: the commands behind it make no request, and
-- the error is what is returned.
pub run_commands-append :
    (handlers : Map Str Handler) (webhook : Webhook) (config : IntegrationConfig)
    (xs ys : List Command) (log : List Request)
    → run_commands handlers webhook config (xs ++ ys) log
      ≡ (run_commands handlers webhook config xs >> run_commands handlers webhook config ys) log
unfolding run_commands
run_commands-append handlers webhook config [] ys log = refl
run_commands-append handlers webhook config (x ∷ xs) ys log =
    elim (Option-cases (get x.type handlers)) [
      | inl n ↦ ground (arith, n, run_commands-append handlers webhook config xs ys log)
      | inr (h, e) ↦ elim (Result-cases (h x webhook config log).0) [
        | inl (u, q) ↦ ground (
          arith,
          e,
          q,
          run_commands-append handlers webhook config xs ys (h x webhook config log).1,
        )
        | inr (f, q) ↦ ground (arith, e, q)
      ]
    ]
