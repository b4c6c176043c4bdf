-- ===== src/Structs/Graph/Search.antt =====
-- pkg/structs/graph.go: the marks of the search, and the order in which nodes are finished.
use mathlib.Core.Path.{subst}
use mathlib.Core.Bool.{false≢true}
use cicd_operator.Base.{
  if◌then◌else◌, Bool-cases, ◌==◌, nat_eq, length, In, Str, str_beq_iff, str_eq, Map, get, put,
  get-put, ℕ, suc, ◌≤◌, ◌<◌, ◌≡◌, refl, sym, ◌∙◌, ◌≢◌, inl, inr, Bool, true, false, List, [], ◌∷◌,
  arith,
}
use cicd_operator.Structs.Graph.{Graph, mem_str, marked, init_marks, Marks, enter, leave}
use cicd_operator.Structs.Graph.Edges.{Edge, Walk, last, onward, Walk-trans, IsCycle, mem_str→In}

remove : Str → List Str → List Str
remove x [] = []
remove x (y ∷ l) = if y == x then remove x l else y ∷ remove x l

length-remove-le : (x : Str) (l : List Str) → length (remove x l) ≤ length l
unfolding remove
length-remove-le x [] = omega arith
length-remove-le x (y ∷ l) = ground (arith, length-remove-le x l)

length-remove-lt : (x : Str) (l : List Str) → In x l → length (remove x l) < length l
unfolding remove
length-remove-lt x [] m = absurd m
length-remove-lt x (y ∷ l) (inl e) = ground (arith, str_beq_iff y x, length-remove-le x l)
length-remove-lt x (y ∷ l) (inr m) = ground (arith, length-remove-lt x l m)

In-remove : (x z : Str) (l : List Str) → In z l → z ≢ x → In z (remove x l)
unfolding remove
In-remove x z [] m n = absurd m
In-remove x z (y ∷ l) (inl e) n = elim (Bool-cases (y == x)) [
  | inl p ↦ absurd (n (e ∙ (str_beq_iff y x).0 p))
  | inr p ↦ rw p (inl e)
]
In-remove x z (y ∷ l) (inr m) n = elim (Bool-cases (y == x)) [
  | inl p ↦ rw p (In-remove x z l m n)
  | inr p ↦ rw p (inr (In-remove x z l m n))
]

module _ (g : Graph) where
  -- Each node stands in front of the nodes that its edges reach, and once.
  abbrev pub IsFinished : List Str → Type 0
  IsFinished [] = Unit {0}
  IsFinished (v ∷ vs) = (¬ In v vs) × ((b : Str) → Edge g v b → In b vs) × IsFinished vs

  -- The stack of calls, the latest first: each node was reached by an edge of the next one.
  abbrev pub IsNext : List Str → Str → Type 0
  IsNext [] x = Unit {0}
  IsNext (y ∷ es) x = Edge g y x

  abbrev pub IsStack : List Str → Type 0
  IsStack [] = Unit {0}
  IsStack (x ∷ es) = IsNext es x × IsStack es

  -- The maps mark the finished nodes and those on the stack.
  pub record Holds (vs es : List Str) (s : Marks) : Type 0 where
    pub visited_mem : (x : Str) → marked x s.visited ≡ mem_str x vs
    pub explore_mem : (x : Str) → marked x s.explore ≡ mem_str x es
    pub finished : IsFinished vs
    pub stack : IsStack es
    pub apart : (x : Str) → In x vs → ¬ In x es
    pub within : (x : Str) → In x vs → In x g.nodes

  marked-put :
      (k x : Str) (b : Bool) (m : Map Str Bool)
      → marked x (put k b m) ≡ (if k == x then b else marked x m)
  unfolding marked
  marked-put k x b m = ground (arith, get-put k x b m)

  pub enter-Holds :
      (vs es : List Str) (s : Marks) (from : Str)
      → Holds vs es s
      → IsNext es from
      → ¬ In from vs
      → Holds vs (from ∷ es) (enter from s)
  unfolding enter
  enter-Holds vs es s from h n v = record {
    visited_mem = h.visited_mem;
    explore_mem = λ x. ground (arith, marked-put from x true s.explore, h.explore_mem x);
    finished = h.finished;
    stack = (n, h.stack);
    apart = λ x m. elim [ inl e ↦ v (subst (λ y. In y vs) e m) | inr k ↦ h.apart x m k ];
    within = h.within;
  }

  pub leave-Holds :
      (vs es : List Str) (s : Marks) (from : Str)
      → Holds vs (from ∷ es) s
      → ¬ In from es
      → In from g.nodes
      → ((b : Str) → Edge g from b → In b vs)
      → Holds (from ∷ vs) es (leave from s)
  unfolding leave
  leave-Holds vs es s from h n i r = record {
    visited_mem = λ x. ground (arith, marked-put from x true s.visited, h.visited_mem x);
    explore_mem = λ x.
        ground
          (arith, marked-put from x false s.explore, h.explore_mem x, str_beq_iff from x, not_mem);
    finished = (λ m. h.apart from m (inl refl), r, h.finished);
    stack = h.stack.1;
    apart = λ x. elim [
      | inl e ↦ (λ k. n (subst (λ y. In y es) e k))
      | inr m ↦ (λ k. h.apart x m (inr k))
    ];
    within = λ x. elim [ inl e ↦ subst (λ y. In y g.nodes) (sym e) i | inr m ↦ h.within x m ];
  }
    where
      not_mem : mem_str from es ≡ false
      not_mem = elim (Bool-cases (mem_str from es)) [
        | inl y ↦ absurd (n (mem_str→In from es y))
        | inr e ↦ e
      ]

  pub init_marks-unmarked : (x : Str) (ns : List Str) → marked x (init_marks ns) ≡ false
  unfolding init_marks marked get
  init_marks-unmarked x [] = refl
  init_marks-unmarked x (n ∷ ns) =
      ground (arith, marked-put n x false (init_marks ns), init_marks-unmarked x ns)

  -- A node that the search meets again on its stack lies on a cycle.
  stack_path : (y x : Str) (es : List Str) → IsStack (y ∷ es) → In x es → Walk g x y
  stack_path y x [] h m = absurd m
  stack_path y x (z ∷ es) h (inl e) = last (subst (λ w. Edge g w y) (sym e) h.0)
  stack_path y x (z ∷ es) h (inr m) = Walk-trans (stack_path z x es h.1 m) (last h.0)

  pub stack-IsCycle : (x : Str) (es : List Str) → IsStack es → IsNext es x → In x es → IsCycle g x
  stack-IsCycle x [] h n m = absurd m
  stack-IsCycle x (y ∷ es) h n (inl e) = last (subst (λ w. Edge g w x) (sym e) n)
  stack-IsCycle x (y ∷ es) h n (inr m) = Walk-trans (stack_path y x es h m) (last n)

  -- How far from the end of the finished nodes a node stands; 0 for the others.
  abbrev pub rank : Str → List Str → ℕ
  rank x [] = 0
  rank x (v ∷ vs) = if v == x then suc (length vs) else rank x vs

  pub rank-le-length : (x : Str) (vs : List Str) → rank x vs ≤ length vs
  rank-le-length x [] = omega arith
  rank-le-length x (v ∷ vs) = ground (arith, rank-le-length x vs)

  not_head : (v b : Str) (vs : List Str) → ¬ In v vs → In b vs → (v == b) ≡ false
  not_head v b vs n m = elim (Bool-cases (v == b)) [
    | inl e ↦ absurd (n (subst (λ y. In y vs) (sym ((str_beq_iff v b).0 e)) m))
    | inr e ↦ e
  ]

  -- An edge leads from a finished node to one of smaller rank, which is finished too.
  pub Edge-rank :
      (a b : Str) (vs : List Str)
      → IsFinished vs
      → In a vs
      → Edge g a b
      → In b vs × (rank b vs < rank a vs)
  Edge-rank a b [] h m e = absurd m
  Edge-rank a b (v ∷ vs) h m e = elim (Bool-cases (v == a)) [
    | inl p ↦ at_head p (h.1 b (subst (λ x. Edge g x b) (sym ((str_beq_iff v a).0 p)) e))
    | inr p ↦ behind p (Edge-rank a b vs h.2 (in_tail p m) e)
  ]
    where
      at_head : (v == a) ≡ true → In b vs → In b (v ∷ vs) × (rank b (v ∷ vs) < rank a (v ∷ vs))
      at_head p k = (inr k, rw (p, not_head v b vs h.0 k) (omega (arith, rank-le-length b vs)))

      in_tail : (v == a) ≡ false → In a (v ∷ vs) → In a vs
      in_tail p (inl q) = absurd (false≢true (sym p ∙ (str_beq_iff v a).1 (sym q)))
      in_tail p (inr k) = k

      behind :
          (v == a) ≡ false
          → In b vs × (rank b vs < rank a vs)
          → In b (v ∷ vs) × (rank b (v ∷ vs) < rank a (v ∷ vs))
      behind p (k, r) = (inr k, rw (p, not_head v b vs h.0 k) r)

  Walk-rank :
      {a b : Str} (vs : List Str) → IsFinished vs → In a vs → Walk g a b → rank b vs < rank a vs
  Walk-rank vs h m (last e) = (Edge-rank _ _ vs h m e).1
  Walk-rank vs h m (onward e p) =
      let (k, r) = Edge-rank _ _ vs h m e in omega (arith, Walk-rank vs h k p)

  -- No finished node lies on a cycle.
  pub finished-acyclic : (a : Str) (vs : List Str) → IsFinished vs → In a vs → ¬ IsCycle g a
  finished-acyclic a vs h m p = absurd (omega (arith, Walk-rank vs h m p))

  -- Finished nodes are distinct, so there are no more of them than nodes.
  pub length-IsFinished :
      (vs ns : List Str) → IsFinished vs → ((x : Str) → In x vs → In x ns) → length vs ≤ length ns
  length-IsFinished [] ns h k = omega arith
  length-IsFinished (v ∷ vs) ns h k = omega (
    arith,
    length-remove-lt v ns (k v (inl refl)),
    length-IsFinished vs (remove v ns) h.2
        (λ x m. In-remove v x ns (k x (inr m)) (λ e. h.0 (subst (λ y. In y vs) e m))),
  )
