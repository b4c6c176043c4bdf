-- ===== src/Structs/Graph/Ancestors.antt =====
-- pkg/structs/graph.go: `GetPres` ends on a graph without cycles and gives the ancestors of its target.
use mathlib.Core.Path.{subst}
use cicd_operator.Base.{
  Bool-cases, nat_eq, length, In, In-append, Str, str_eq, ℕ, zero, suc, ◌+◌, ◌<◌, ◌≡◌, refl, sym,
  ◌∙◌, ◌↔◌, ◌⊎◌, inl, inr, false, Option, some, List, [], ◌∷◌, arith,
}
use cicd_operator.Structs.Graph.{
  Graph, at, mem_str, append_unique, append_all, collect, get_pres, is_cyclic,
}
use cicd_operator.Structs.Graph.Edges.{
  Edge, Walk, last, onward, Walk-trans, IsGraph, mem_str→In, In-append_left, In-append_right,
}
use cicd_operator.Structs.Graph.Search.{rank, rank-le-length, Edge-rank, length-IsFinished}
use cicd_operator.Structs.Graph.Cycles.{Ordered, order_of_acyclic}

In-append_unique : (x v : Str) (l : List Str) → In x (append_unique l v) ↔ (x ≡ v) ⊎ In x l
unfolding append_unique
In-append_unique x v l = elim (Bool-cases (mem_str v l)) [
  | inl y ↦
      rw y (λ h. inr h, elim [ inl e ↦ subst (λ w. In w l) (sym e) (mem_str→In v l y) | inr h ↦ h ])
  | inr n ↦ rw n (
    λ h. elim (In-append x l (v ∷ []) h) [ inl a ↦ inr a | inr b ↦ inl (ground (arith, b)) ],
    elim [ inl e ↦ In-append_right x l (v ∷ []) (inl e) | inr h ↦ In-append_left x l (v ∷ []) h ],
  )
]

In-append_all : (x : Str) (ps pres : List Str) → In x (append_all pres ps) ↔ In x pres ⊎ In x ps
unfolding append_all
In-append_all x [] pres = ((λ h. inl h), elim [ inl h ↦ h | inr h ↦ absurd h ])
In-append_all x (p ∷ ps) pres =
    go (In-append_unique x p pres) (In-append_all x ps (append_unique pres p))
  where
    go :
        In x (append_unique pres p) ↔ (x ≡ p) ⊎ In x pres
        → In x (append_all (append_unique pres p) ps) ↔ In x (append_unique pres p) ⊎ In x ps
        → In x (append_all (append_unique pres p) ps) ↔ In x pres ⊎ ((x ≡ p) ⊎ In x ps)
    go one ih = (
      (λ h. elim (ih.0 h) [
        | inl a ↦ elim (one.0 a) [ inl e ↦ inr (inl e) | inr b ↦ inl b ]
        | inr c ↦ inr (inr c)
      ]),
      elim [
        | inl b ↦ ih.1 (inl (one.1 (inr b)))
        | inr q ↦ elim q [ inl e ↦ ih.1 (inl (one.1 (inl e))) | inr c ↦ ih.1 (inr c) ]
      ],
    )

module _ (g : Graph) where
  -- The node is one of these, or an ancestor of one.
  abbrev Above : Str → List Str → Type 0
  Above x fs = (f : Str) × In f fs × ((x ≡ f) ⊎ Walk g x f)

  -- A call that ends with the ancestors of its node.
  abbrev pub GivesAncestors : Str → Option (List Str) → Type 0
  GivesAncestors t r = (l : List Str) × (r ≡ some l) × ((x : Str) → In x l ↔ Walk g x t)

  Above-cons :
      (x f : Str) (fs pres ch : List Str)
      → ((y : Str) → In y ch ↔ Walk g y f)
      → (In x (append_all (append_unique pres f) ch) ⊎ Above x fs) ↔ (In x pres ⊎ Above x (f ∷ fs))
  Above-cons x f fs pres ch c = (
    elim [
      | inl h ↦ from_pres ((In-append_all x ch (append_unique pres f)).0 h)
      | inr a ↦ inr (a.0, inr (a.1), a.2)
    ],
    elim [
      | inl h ↦ inl (
          (In-append_all x ch (append_unique pres f)).1
            (inl ((In-append_unique x f pres).1 (inr h))))
      | inr a ↦ into (a.0) (a.1) (a.2)
    ],
  )
    where
      from_pres : In x (append_unique pres f) ⊎ In x ch → In x pres ⊎ Above x (f ∷ fs)
      from_pres (inl h) = elim ((In-append_unique x f pres).0 h) [
        | inl e ↦ inr (f, inl refl, inl e)
        | inr k ↦ inl k
      ]
      from_pres (inr h) = inr (f, inl refl, inr ((c x).0 h))

      into :
          (b : Str)
          → In b (f ∷ fs)
          → (x ≡ b) ⊎ Walk g x b
          → In x (append_all (append_unique pres f) ch) ⊎ Above x fs
      into b (inr m) q = inr (b, m, q)
      into b (inl e) (inl p) = inl (
          (In-append_all x ch (append_unique pres f)).1
            (inl ((In-append_unique x f pres).1 (inl (p ∙ e)))))
      into b (inl e) (inr p) = inl (
          (In-append_all x ch (append_unique pres f)).1
            (inr ((c x).1 (subst (λ y. Walk g x y) e p))))

  collect-Above :
      (call : Str → Option (List Str)) (fs pres : List Str)
      → ((f : Str) → In f fs → GivesAncestors f (call f))
      → (l : List Str) × (collect call fs pres ≡ some l)
        × ((x : Str) → In x l ↔ (In x pres ⊎ Above x fs))
  unfolding collect
  collect-Above call [] pres h =
      (pres, refl, λ x. ((λ k. inl k), elim [ inl k ↦ k | inr a ↦ absurd (a.1) ]))
  collect-Above call (f ∷ fs) pres h =
      let (ch, e, c) = h f (inl refl) in
      let (l, q, r) =
        collect-Above call fs (append_all (append_unique pres f) ch) (λ b m. h b (inr m)) in
      (
        l,
        rw (e, collect) q,
        λ x. (
          (λ k. (Above-cons x f fs pres ch c).0 ((r x).0 k)),
          λ k. (r x).1 ((Above-cons x f fs pres ch c).1 k),
        ),
      )

  -- The last edge of a path.
  parent : {x t : Str} → Walk g x t → (f : Str) × Edge g f t × ((x ≡ f) ⊎ Walk g x f)
  parent (last {a = a} e) = (a, e, inl refl)
  parent (onward {a = a} {c = c} e p) = behind c e (parent p)
    where
      behind :
          {b : Str} (c : Str)
          → Edge g a b
          → (f : Str) × Edge g f c × ((b ≡ f) ⊎ Walk g b f)
          → (f : Str) × Edge g f c × ((a ≡ f) ⊎ Walk g a f)
      behind c d (f, k, inl q) = (f, k, inr (last (subst (λ y. Edge g a y) q d)))
      behind c d (f, k, inr q) = (f, k, inr (onward d q))

  get_pres_ends :
      (v : IsGraph g) (o : Ordered g) (fuel : ℕ) (t : Str)
      → length o.order < fuel + rank g t o.order
      → GivesAncestors t (get_pres fuel g t)
  unfolding get_pres
  get_pres_ends v o zero t h = absurd (omega (arith, rank-le-length g t o.order))
  get_pres_ends v o (suc fuel) t h =
      let (l, e, c) = collect-Above (get_pres fuel g) (at t g.edges_from) [] (λ f m.
        let k = (v.mirrored f t).1 m in
        get_pres_ends v o fuel f
          (omega (arith, (Edge-rank g f t o.order o.finished (o.sources f t k) k).1))) in
      (l, e, λ x. ((λ k. of_above x ((c x).0 k)), λ p. (c x).1 (to_above x (parent p))))
    where
      of_above : (x : Str) → ⊥ ⊎ Above x (at t g.edges_from) → Walk g x t
      of_above x (inl h) = absurd h
      of_above x (inr (f, m, inl e)) = last (subst (λ y. Edge g y t) (sym e) ((v.mirrored f t).1 m))
      of_above x (inr (f, m, inr p)) = Walk-trans p (last ((v.mirrored f t).1 m))

      to_above :
          (x : Str)
          → (f : Str) × Edge g f t × ((x ≡ f) ⊎ Walk g x f)
          → ⊥ ⊎ Above x (at t g.edges_from)
      to_above x (f, k, q) = inr (f, (v.mirrored f t).0 k, q)

  -- On such a graph that passes the cycle check, with more fuel than nodes, `GetPres` ends, and gives
  -- exactly the nodes from which a path leads to its target.
  pub get_pres-GivesAncestors :
      (fuel : ℕ) (t : Str)
      → IsGraph g
      → is_cyclic g ≡ some false
      → length g.nodes < fuel
      → GivesAncestors t (get_pres fuel g t)
  get_pres-GivesAncestors fuel t v e f =
      let o = order_of_acyclic g v e in
      get_pres_ends v o fuel t
        (omega (arith, length-IsFinished g o.order g.nodes o.finished o.within))
