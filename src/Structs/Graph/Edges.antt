-- ===== src/Structs/Graph/Edges.antt =====
-- pkg/structs/graph.go: edges and paths, and what `AddEdge` keeps.
use cicd_operator.Base.{
  if◌then◌else◌, Bool-cases, ◌==◌, nat_eq, In, In-append, Str, str_beq_iff, str_eq, Map, get, put,
  get-put, ◌≡◌, refl, sym, ◌∙◌, ◌↔◌, ◌⊎◌, inl, inr, true, false, List, [], ◌∷◌, ◌++◌, arith,
}
use mathlib.Core.Path.{subst}
use mathlib.Core.Bool.{false≢true}
use cicd_operator.Structs.Graph.{Graph, new_graph, at, mem_str, put_node, add_edge, keys}

abbrev pub Edge : Graph → Str → Str → Type 0
Edge g a b = In b (at a g.edges_to)

-- A path of one edge or more.
pub data Walk (g : Graph) : Str → Str → Type 0 where
  last : {a b : Str} → Edge g a b → Walk g a b
  onward : {a b c : Str} → Edge g a b → Walk g b c → Walk g a c

pub Walk-trans : {g : Graph} {a b c : Str} → Walk g a b → Walk g b c → Walk g a c
Walk-trans (last e) q = onward e q
Walk-trans (onward e p) q = onward e (Walk-trans p q)

abbrev pub IsCycle : Graph → Str → Type 0
IsCycle g a = Walk g a a

pub In-append_left : {A : Type 0} (a : A) (xs ys : List A) → In a xs → In a (xs ++ ys)
In-append_left a (x ∷ xs) ys (inl e) = inl e
In-append_left a (x ∷ xs) ys (inr h) = inr (In-append_left a xs ys h)
In-append_left a [] ys h = absurd h

pub In-append_right : {A : Type 0} (a : A) (xs ys : List A) → In a ys → In a (xs ++ ys)
In-append_right a [] ys h = h
In-append_right a (x ∷ xs) ys h = inr (In-append_right a xs ys h)

pub mem_str→In : (a : Str) (l : List Str) → mem_str a l ≡ true → In a l
mem_str→In a [] h = cc
mem_str→In a (x ∷ l) h = ground (arith, str_beq_iff x a, mem_str→In a l)

pub In→mem_str : (a : Str) (l : List Str) → In a l → mem_str a l ≡ true
In→mem_str a [] h = absurd h
In→mem_str a (x ∷ l) (inl e) = ground (arith, str_beq_iff x a)
In→mem_str a (x ∷ l) (inr m) = ground (arith, In→mem_str a l m)

-- Membership of a list of strings is decided by `==`.
pub In-cases : (a : Str) (l : List Str) → In a l ⊎ (¬ In a l)
In-cases a l = elim (Bool-cases (mem_str a l)) [
  | inl y ↦ inl (mem_str→In a l y)
  | inr n ↦ inr (λ h. cc (In→mem_str a l h))
]

In-put_node : (x a : Str) (l : List Str) → In x (put_node a l) ↔ (x ≡ a) ⊎ In x l
unfolding put_node
In-put_node x a l = elim (Bool-cases (mem_str a l)) [
  | inl y ↦
      rw y (λ h. inr h, elim [ inl e ↦ subst (λ b. In b l) (sym e) (mem_str→In a l y) | inr h ↦ h ])
  | inr n ↦ rw n (λ h. h, λ h. h)
]

at-put :
    (k j : Str) (l : List Str) (m : Map Str (List Str))
    → at j (put k l m) ≡ (if k == j then l else at j m)
unfolding at
at-put k j l m = ground (arith, get-put k j l m)

-- `m[k] = append(m[k], v)`
abbrev extended : Str → Str → Map Str (List Str) → Map Str (List Str)
extended k v m = put k (at k m ++ v ∷ []) m

In-extended_key :
    (k v b : Str) (m : Map Str (List Str)) → In b (at k (extended k v m)) ↔ (b ≡ v) ⊎ In b (at k m)
In-extended_key k v b m =
    rw (at-put k k (at k m ++ v ∷ []) m, (str_beq_iff k k).1 refl)
      (
        λ h. elim (In-append b (at k m) (v ∷ []) h) [
          | inl l ↦ inr l
          | inr r ↦ inl (ground (arith, r))
        ],
        elim [
          | inl e ↦ In-append_right b (at k m) (v ∷ []) (inl e)
          | inr h ↦ In-append_left b (at k m) (v ∷ []) h
        ],
      )

In-extended_other :
    (k v a b : Str) (m : Map Str (List Str)) → (k == a) ≡ false → at a (extended k v m) ≡ at a m
In-extended_other k v a b m n = rw (at-put k a (at k m ++ v ∷ []) m, n)

In-extended :
    (k v a b : Str) (m : Map Str (List Str))
    → In b (at a (extended k v m)) ↔ ((a ≡ k) × (b ≡ v)) ⊎ In b (at a m)
In-extended k v a b m = elim (Bool-cases (k == a)) [
  | inl e ↦ same ((str_beq_iff k a).0 e)
  | inr n ↦ rw (In-extended_other k v a b m n) (
    λ h. inr h,
    elim [ inl p ↦ absurd (false≢true (sym n ∙ (str_beq_iff k a).1 (sym (p.0)))) | inr h ↦ h ],
  )
]
  where
    same : k ≡ a → In b (at a (extended k v m)) ↔ ((a ≡ k) × (b ≡ v)) ⊎ In b (at a m)
    same e = rw (← e) (
      λ h. elim ((In-extended_key k v b m).0 h) [ inl p ↦ inl (refl, p) | inr q ↦ inr q ],
      elim [
        | inl p ↦ (In-extended_key k v b m).1 (inl (p.1))
        | inr q ↦ (In-extended_key k v b m).1 (inr q)
      ],
    )

-- An added edge is the only new one, in both maps.
pub Edge-add_edge :
    (from to a b : Str) (g : Graph)
    → Edge (add_edge from to g) a b ↔ ((a ≡ from) × (b ≡ to)) ⊎ Edge g a b
unfolding add_edge
Edge-add_edge from to a b g = In-extended from to a b g.edges_to

keys-put :
    (k : Str) (l : List Str) (a : Str) (m : Map Str (List Str))
    → In a (keys (put k l m))
    → (a ≡ k) ⊎ In a (keys m)
unfolding put
keys-put k l a [] h = h
keys-put k l a ((j, w) ∷ m) h = elim (Bool-cases (j == k)) [
  | inl e ↦ (elim (rw e at h) [ inl p ↦ inl p | inr q ↦ inr (inr q) ])
  | inr n ↦ later (rw n at h) (keys-put k l a m)
]
  where
    later :
        (a ≡ j) ⊎ In a (keys (put k l m))
        → (In a (keys (put k l m)) → (a ≡ k) ⊎ In a (keys m))
        → (a ≡ k) ⊎ ((a ≡ j) ⊎ In a (keys m))
    later (inl p) ih = inr (inl p)
    later (inr q) ih = elim (ih q) [ inl p ↦ inl p | inr r ↦ inr (inr r) ]

-- The source of an edge is a key.
pub Edge-key : (a b : Str) (m : Map Str (List Str)) → In b (at a m) → In a (keys m)
unfolding at get
Edge-key a b [] h = absurd h
Edge-key a b ((j, w) ∷ m) h = elim (Bool-cases (j == a)) [
  | inl e ↦ inl (sym ((str_beq_iff j a).0 e))
  | inr n ↦ inr (Edge-key a b m (subst (λ l. In b l) (at_tail n) h))
]
  where
    at_tail : (j == a) ≡ false → at a ((j, w) ∷ m) ≡ at a m
    at_tail n = ground (arith, n)

-- The two maps hold the same edges, and the nodes are the ends of edges.
pub record IsGraph (g : Graph) : Type 0 where
  pub mirrored : (a b : Str) → Edge g a b ↔ In a (at b g.edges_from)
  pub from_node : (a b : Str) → Edge g a b → In a g.nodes
  pub to_node : (a b : Str) → Edge g a b → In b g.nodes
  pub key_node : (a : Str) → In a (keys g.edges_to) → In a g.nodes

pub new_graph-IsGraph : IsGraph new_graph
unfolding new_graph at get
new_graph-IsGraph = record {
  mirrored = λ a b. (λ h. h, λ h. h);
  from_node = λ a b h. absurd h;
  to_node = λ a b h. absurd h;
  key_node = λ a h. absurd h;
}

-- `AddEdge` keeps a graph well-formed: the two maps have the same edges, and the ends of every edge
-- and the keys of the first map are nodes.
pub add_edge-IsGraph : (from to : Str) (g : Graph) → IsGraph g → IsGraph (add_edge from to g)
add_edge-IsGraph from to g v = record {
  mirrored = λ a b. (there a b, back a b);
  from_node = λ a b h.
      unfold add_edge in
      (In-put_node a to (put_node from g.nodes)).1
        (inr ((In-put_node a from g.nodes).1 (node_a a b ((Edge-add_edge from to a b g).0 h))));
  to_node = λ a b h.
      unfold add_edge in
      (In-put_node b to (put_node from g.nodes)).1 (node_b a b ((Edge-add_edge from to a b g).0 h));
  key_node = λ a h.
      unfold add_edge in
      (In-put_node a to (put_node from g.nodes)).1 (
        inr (
          (In-put_node a from g.nodes).1
            (node_k a (keys-put from (at from g.edges_to ++ to ∷ []) a g.edges_to h))));
}
  where
    node_a : (a b : Str) → ((a ≡ from) × (b ≡ to)) ⊎ Edge g a b → (a ≡ from) ⊎ In a g.nodes
    node_a a b (inl e) = inl (e.0)
    node_a a b (inr h) = inr (v.from_node a b h)

    node_k : (a : Str) → (a ≡ from) ⊎ In a (keys g.edges_to) → (a ≡ from) ⊎ In a g.nodes
    node_k a (inl e) = inl e
    node_k a (inr h) = inr (v.key_node a h)

    node_b :
        (a b : Str) → ((a ≡ from) × (b ≡ to)) ⊎ Edge g a b → (b ≡ to) ⊎ In b (put_node from g.nodes)
    node_b a b (inl e) = inl (e.1)
    node_b a b (inr h) = inr ((In-put_node b from g.nodes).1 (inr (v.to_node a b h)))

    there :
        (a b : Str) → Edge (add_edge from to g) a b → In a (at b (add_edge from to g).edges_from)
    there a b h =
        unfold add_edge in
        elim ((Edge-add_edge from to a b g).0 h) [
          | inl e ↦ (In-extended to from b a g.edges_from).1 (inl (e.1, e.0))
          | inr h ↦ (In-extended to from b a g.edges_from).1 (inr ((v.mirrored a b).0 h))
        ]

    back : (a b : Str) → In a (at b (add_edge from to g).edges_from) → Edge (add_edge from to g) a b
    back a b h =
        unfold add_edge in
        elim ((In-extended to from b a g.edges_from).0 h) [
          | inl e ↦ (Edge-add_edge from to a b g).1 (inl (e.1, e.0))
          | inr h ↦ (Edge-add_edge from to a b g).1 (inr ((v.mirrored a b).1 h))
        ]
