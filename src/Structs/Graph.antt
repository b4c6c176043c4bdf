-- ===== src/Structs/Graph.antt =====
-- pkg/structs/graph.go. The recursive methods take fuel; `none` is a recursion that has not ended with it.
pub mod Edges
pub mod Search
pub mod Cycles
pub mod Ancestors
use cicd_operator.Base.{
  if◌then◌else◌, ◌==◌, nat_eq, length, anyb, Str, str_eq, Map, get, put, pos, negsuc, ℕ, zero, suc,
  refl, Bool, true, false, Option, none, some, List, [], ◌∷◌, ◌++◌, arith,
}

pub record Graph : Type 0 where
  pub nodes : List Str
  pub edges_to : Map Str (List Str)
  pub edges_from : Map Str (List Str)

unfoldable pub new_graph : Graph
new_graph = record { nodes = []; edges_to = []; edges_from = [] }

-- `m[k]` of a map of slices: nil for a missing key.
unfoldable pub at : Str → Map Str (List Str) → List Str
at k m = elim (get k m) [ none ↦ [] | some l ↦ l ]

abbrev pub mem_str : Str → List Str → Bool
mem_str a l = anyb (λ x. x == a) l

-- A write of `struct{}{}` to the set of nodes.
unfoldable pub put_node : Str → List Str → List Str
put_node a l = if mem_str a l then l else a ∷ l

unfoldable pub add_edge : Str → Str → Graph → Graph
unfolding put_node
add_edge from to g = record {
  nodes = put_node to (put_node from g.nodes);
  edges_to = put from (at from g.edges_to ++ to ∷ []) g.edges_to;
  edges_from = put to (at to g.edges_from ++ from ∷ []) g.edges_from;
}

-- The two maps that `IsCyclic` shares with `detectCycle`.
pub record Marks : Type 0 where
  pub visited : Map Str Bool
  pub explore : Map Str Bool

unfoldable pub marked : Str → Map Str Bool → Bool
marked k m = elim (get k m) [ none ↦ false | some b ↦ b ]

unfoldable pub init_marks : List Str → Map Str Bool
init_marks [] = []
init_marks (k ∷ l) = put k false (init_marks l)

-- The loop over `tos`, and over the keys of `edgesTo`, with the recursive call.
unfoldable pub scan :
    (Str → Marks → Option (Bool × Marks)) → List Str → Marks → Option (Bool × Marks)
scan call [] s = some (false, s)
scan call (to ∷ tos) s =
    let rest = scan call tos in
    if marked to s.visited then rest s else (elim (call to s) [
      | none ↦ none
      | some (found, s') ↦ if found then some (true, s') else rest s'
    ])

unfoldable pub enter : Str → Marks → Marks
enter from s = record s { explore = put from true s.explore }

unfoldable pub leave : Str → Marks → Marks
leave from s = record { visited = put from true s.visited; explore = put from false s.explore }

unfoldable pub finish : Str → Option (Bool × Marks) → Option (Bool × Marks)
unfolding leave
finish from none = none
finish from (some (true, s)) = some (true, s)
finish from (some (false, s)) = some (false, leave from s)

unfoldable pub detect_cycle : ℕ → Graph → Str → Marks → Option (Bool × Marks)
unfolding enter
detect_cycle zero g from s = none
detect_cycle (suc fuel) g from s =
    let inner = scan (detect_cycle fuel g) (at from g.edges_to) (enter from s) in
    if marked from s.explore then some (true, s) else finish from inner

abbrev pub keys : Map Str (List Str) → List Str
keys [] = []
keys ((k, v) ∷ m) = k ∷ keys m

unfoldable pub is_cyclic : Graph → Option Bool
unfolding init_marks
is_cyclic g =
    let start : Marks = record { visited = init_marks g.nodes; explore = init_marks g.nodes } in
    let fuel : ℕ = suc (length g.nodes) in
    elim (scan (detect_cycle fuel g) (keys g.edges_to) start) [
      | none ↦ none
      | some (found, s) ↦ some found
    ]

unfoldable pub append_unique : List Str → Str → List Str
append_unique arr val = if mem_str val arr then arr else arr ++ val ∷ []

unfoldable pub append_all : List Str → List Str → List Str
append_all pres [] = pres
append_all pres (p ∷ ps) = append_all (append_unique pres p) ps

-- The loop over `froms` with the recursive call.
unfoldable pub collect : (Str → Option (List Str)) → List Str → List Str → Option (List Str)
collect call [] pres = some pres
collect call (f ∷ froms) pres =
    let rest = collect call froms in
    elim (call f) [ none ↦ none | some ch ↦ rest (append_all (append_unique pres f) ch) ]

unfoldable pub get_pres : ℕ → Graph → Str → Option (List Str)
get_pres zero g target = none
get_pres (suc fuel) g target = collect (get_pres fuel g) (at target g.edges_from) []
