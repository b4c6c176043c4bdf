-- ===== src/Tests/Structs.antt =====
-- pkg/structs at a graph of three nodes and lists of numbers.
use cicd_operator.Base.{
  nat_eq, length, Str, str, str_beq, str_eq, get, put, ◌<◌, ◌≡◌, refl, ◌↔◌, Bool, true, false, some,
  arith,
}
use cicd_operator.Structs.Graph.{
  Graph, new_graph, at, put_node, add_edge, marked, init_marks, scan, enter, leave, finish,
  detect_cycle, is_cyclic, get_pres,
}
use cicd_operator.Structs.Graph.Edges.{IsCycle, IsGraph, add_edge-IsGraph, new_graph-IsGraph}
use cicd_operator.Structs.Graph.Cycles.{is_cyclic_decides}
use cicd_operator.Structs.Graph.Ancestors.{GivesAncestors, get_pres-GivesAncestors}

abbrev chain : Graph
chain = add_edge (str "build") (str "test") (add_edge (str "test") (str "deploy") new_graph)

abbrev ring : Graph
ring = add_edge (str "deploy") (str "build") chain

chain-IsGraph : IsGraph chain
chain-IsGraph =
    add_edge-IsGraph (str "build") (str "test") (add_edge (str "test") (str "deploy") new_graph)
      (add_edge-IsGraph (str "test") (str "deploy") new_graph new_graph-IsGraph)

is_cyclic_decides_example :
    (b : Bool) × (is_cyclic ring ≡ some b) × ((b ≡ true) ↔ ((c : Str) × IsCycle ring c))
is_cyclic_decides_example =
    is_cyclic_decides ring (add_edge-IsGraph (str "deploy") (str "build") chain chain-IsGraph)

chain_passes : is_cyclic chain ≡ some false
unfolding is_cyclic detect_cycle scan finish leave enter marked init_marks at add_edge put_node
    new_graph put str_beq get
chain_passes = refl

chain_small : length chain.nodes < 4
unfolding add_edge put_node new_graph str_beq
chain_small = omega arith

get_pres-GivesAncestors_example :
    GivesAncestors chain (str "deploy") (get_pres 4 chain (str "deploy"))
get_pres-GivesAncestors_example =
    get_pres-GivesAncestors chain 4 (str "deploy") chain-IsGraph chain_passes chain_small
