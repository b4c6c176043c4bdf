-- ===== src/Structs/Graph/Cycles.antt =====
-- pkg/structs/graph.go: `IsCyclic` ends, and answers whether the graph has a cycle.
use mathlib.Core.Path.{subst}
use mathlib.Core.Bool.{false≢true}
use cicd_operator.Base.{
  if◌then◌else◌, Bool-cases, nat_eq, length, In, Str, str_beq_iff, str_eq, ℕ, zero, suc, ◌≤◌, ◌<◌,
  ◌≡◌, refl, sym, ap, ◌∙◌, ◌↔◌, inl, inr, Bool, true, false, Option, none, some, List, [], ◌∷◌,
  arith,
}
use cicd_operator.Structs.Graph.{
  Graph, at, mem_str, marked, init_marks, Marks, enter, finish, scan, detect_cycle, is_cyclic, keys,
}
use cicd_operator.Structs.Graph.Edges.{
  Edge, Walk, last, onward, IsCycle, IsGraph, mem_str→In, In→mem_str, Edge-key,
}
use cicd_operator.Structs.Graph.Search.{
  Holds, IsFinished, IsNext, enter-Holds, leave-Holds, init_marks-unmarked, stack-IsCycle,
  finished-acyclic,
}

-- The nodes that are not on the stack.
abbrev pub room : List Str → List Str → ℕ
room es [] = 0
room es (n ∷ ns) = if mem_str n es then room es ns else suc (room es ns)

room-cons-le : (x : Str) (es ns : List Str) → room (x ∷ es) ns ≤ room es ns
room-cons-le x es [] = omega arith
room-cons-le x es (n ∷ ns) = ground (arith, room-cons-le x es ns)

room-cons-lt :
    (x : Str) (es ns : List Str) → In x ns → mem_str x es ≡ false → room (x ∷ es) ns < room es ns
room-cons-lt x es [] m h = absurd m
room-cons-lt x es (n ∷ ns) (inl e) h =
    ground (arith, str_beq_iff x n, room-cons-le x es ns, subst (λ y. mem_str y es ≡ false) e h)
room-cons-lt x es (n ∷ ns) (inr m) h = ground (arith, room-cons-lt x es ns m h)

room-nil : (ns : List Str) → room [] ns ≡ length ns
room-nil [] = refl
room-nil (n ∷ ns) = ap suc (room-nil ns)

module _ (g : Graph) where
  -- What a call says: a cycle was found, or the nodes that it was asked for are finished.
  pub record Done (vs es tos : List Str) (s : Marks) : Type 0 where
    pub done : List Str
    pub holds : Holds g done es s
    pub kept : (x : Str) → In x vs → In x done
    pub covers : (x : Str) → In x tos → In x done

  abbrev pub Answer : List Str → List Str → List Str → Option (Bool × Marks) → Type 0
  Answer vs es tos none = ⊥
  Answer vs es tos (some (true, s)) = (c : Str) × IsCycle g c
  Answer vs es tos (some (false, s)) = Done vs es tos s

  -- A call may be made of a node that is not finished and is the next one of the stack.
  abbrev Callable : List Str → (Str → Marks → Option (Bool × Marks)) → Type 0
  Callable es call =
      (to : Str) (vs : List Str) (s : Marks)
      → Holds g vs es s
      → ¬ In to vs
      → In to g.nodes
      → IsNext g es to
      → Answer vs es (to ∷ []) (call to s)

  Answer-widen :
      (vs ws es tos : List Str) (to : Str) (r : Option (Bool × Marks))
      → ((x : Str) → In x vs → In x ws)
      → In to ws
      → Answer ws es tos r
      → Answer vs es (to ∷ tos) r
  Answer-widen vs ws es tos to none k m a = a
  Answer-widen vs ws es tos to (some (true, s)) k m a = a
  Answer-widen vs ws es tos to (some (false, s)) k m a = record {
    done = a.done;
    holds = a.holds;
    kept = λ x h. a.kept x (k x h);
    covers =
        λ x. elim [ inl e ↦ subst (λ y. In y a.done) (sym e) (a.kept to m) | inr h ↦ a.covers x h ];
  }

  -- The case of a node that is called: what follows it, from the state that the call leaves.
  scan_called :
      (vs es tos : List Str) (to : Str) (r : Option (Bool × Marks))
      (rest : Marks → Option (Bool × Marks))
      → Answer vs es (to ∷ []) r
      → ((ws : List Str) (s : Marks) → Holds g ws es s → Answer ws es tos (rest s))
      → Answer vs es
          (to ∷ tos)
          (elim r [ none ↦ none | some (found, s') ↦ if found then some (true, s') else rest s' ])
  scan_called vs es tos to none rest a k = a
  scan_called vs es tos to (some (true, s)) rest a k = a
  scan_called vs es tos to (some (false, s)) rest a k =
      Answer-widen vs a.done es tos to (rest s) a.kept (a.covers to (inl refl)) (k a.done s a.holds)

  scan-Answer :
      (es : List Str) (call : Str → Marks → Option (Bool × Marks))
      → Callable es call
      → (tos vs : List Str) (s : Marks) → ((x : Str) → In x tos → In x g.nodes × IsNext g es x)
      → Holds g vs es s
      → Answer vs es tos (scan call tos s)
  unfolding scan
  scan-Answer es call c [] vs s t h = record {
    done = vs;
    holds = h;
    kept = λ x m. m;
    covers = λ x m. absurd m;
  }
  scan-Answer es call c (to ∷ tos) vs s t h =
      let later = λ (ws : List Str) (u : Marks) (k : Holds g ws es u).
        scan-Answer es call c tos ws u (λ x m. t x (inr m)) k in
      elim (Bool-cases (marked to s.visited)) [
        | inl y ↦ rw y (
            Answer-widen vs vs es tos to (scan call tos s) (λ x m. m)
              (mem_str→In to vs (sym (h.visited_mem to) ∙ y)) (later vs s h))
        | inr n ↦ rw n (
            scan_called vs es tos to (call to s) (scan call tos)
              (c to vs s h (λ m. false≢true (sym n ∙ (h.visited_mem to ∙ In→mem_str to vs m)))
                (t to (inl refl)).0 (t to (inl refl)).1)
              later)
      ]

  -- When the nodes that a node leads to are finished, the node is.
  finish-Answer :
      (vs es : List Str) (from : Str) (r : Option (Bool × Marks))
      → ¬ In from es
      → In from g.nodes
      → Answer vs (from ∷ es) (at from g.edges_to) r
      → Answer vs es (from ∷ []) (finish from r)
  unfolding finish
  finish-Answer vs es from none n i a = a
  finish-Answer vs es from (some (true, s)) n i a = a
  finish-Answer vs es from (some (false, s)) n i a = record {
    done = from ∷ a.done;
    holds = leave-Holds g a.done es s from a.holds n i a.covers;
    kept = λ x m. inr (a.kept x m);
    covers = λ x. elim [ inl e ↦ inl e | inr m ↦ absurd m ];
  }

  -- With more fuel than nodes off the stack, a call answers.
  detect_cycle-Answer :
      (v : IsGraph g) (fuel : ℕ) (es : List Str)
      → room es g.nodes < fuel
      → Callable es (detect_cycle fuel g)
  unfolding detect_cycle
  detect_cycle-Answer v zero es f to vs s h n i x = absurd (omega arith)
  detect_cycle-Answer v (suc fuel) es f to vs s h n i x = elim (Bool-cases (marked to s.explore)) [
    | inl y ↦
        rw y (to, stack-IsCycle g to es h.stack x (mem_str→In to es (sym (h.explore_mem to) ∙ y)))
    | inr e ↦
        let off : mem_str to es ≡ false = sym (h.explore_mem to) ∙ e in
        rw e (
          finish-Answer vs es to _ (λ m. false≢true (sym off ∙ In→mem_str to es m)) i
            (scan-Answer (to ∷ es) (detect_cycle fuel g)
              (detect_cycle-Answer v fuel (to ∷ es)
                (omega (arith, room-cons-lt to es g.nodes i off)))
              (at to g.edges_to) vs (enter to s) (λ b m. (v.to_node to b m, m))
              (enter-Holds g vs es s to h x n)))
  ]

  abbrev start : Marks
  start = record { visited = init_marks g.nodes; explore = init_marks g.nodes }

  start-Holds : Holds g [] [] start
  start-Holds = record {
    visited_mem = λ x. init_marks-unmarked g x g.nodes;
    explore_mem = λ x. init_marks-unmarked g x g.nodes;
    finished = tt;
    stack = tt;
    apart = λ x m. absurd m;
    within = λ x m. absurd m;
  }

  -- An order of the nodes, each in front of those that it leads to, with every node that has an edge.
  pub record Ordered : Type 0 where
    pub order : List Str
    pub finished : IsFinished g order
    pub within : (x : Str) → In x order → In x g.nodes
    pub sources : (a b : Str) → Edge g a b → In a order

  Ordered-acyclic : Ordered → (a : Str) → ¬ IsCycle g a
  Ordered-acyclic o a p = finished-acyclic g a o.order o.finished (first_In p) p
    where
      first_In : Walk g a a → In a o.order
      first_In (last e) = o.sources a _ e
      first_In (onward e q) = o.sources a _ e

  abbrev Decided : Option Bool → Type 0
  Decided none = ⊥
  Decided (some true) = (c : Str) × IsCycle g c
  Decided (some false) = Ordered

  is_cyclic-Decided : IsGraph g → Decided (is_cyclic g)
  unfolding is_cyclic
  is_cyclic-Decided v = read _ (
      scan-Answer [] (detect_cycle (suc (length g.nodes)) g)
        (detect_cycle-Answer v (suc (length g.nodes)) [] (omega (arith, room-nil g.nodes)))
        (keys g.edges_to) [] start (λ x m. (v.key_node x m, tt)) start-Holds)
    where
      read :
          (r : Option (Bool × Marks))
          → Answer [] [] (keys g.edges_to) r
          → Decided (elim r [ none ↦ none | some (found, s) ↦ some found ])
      read none a = a
      read (some (true, s)) a = a
      read (some (false, s)) a = record {
        order = a.done;
        finished = a.holds.finished;
        within = a.holds.within;
        sources = λ x y e. a.covers x (Edge-key x y g.edges_to e);
      }

  -- On every graph whose two maps agree and whose edges and keys are nodes, `IsCyclic` ends, and
  -- answers `true` exactly when there is a path from some node back to itself.
  pub is_cyclic_decides :
      IsGraph g → (b : Bool) × (is_cyclic g ≡ some b) × ((b ≡ true) ↔ ((c : Str) × IsCycle g c))
  is_cyclic_decides v = read (is_cyclic g) refl (is_cyclic-Decided v)
    where
      read :
          (r : Option Bool)
          → is_cyclic g ≡ r
          → Decided r
          → (b : Bool) × (is_cyclic g ≡ some b) × ((b ≡ true) ↔ ((c : Str) × IsCycle g c))
      read none e d = absurd d
      read (some true) e d = (true, e, ((λ h. d), λ h. refl))
      read (some false) e d = (false, e, ((λ h. cc), λ h. absurd (Ordered-acyclic d h.0 h.1)))

  -- A graph that passes the check has an order of its nodes.
  pub order_of_acyclic : IsGraph g → is_cyclic g ≡ some false → Ordered
  order_of_acyclic v e = subst Decided e (is_cyclic-Decided v)
