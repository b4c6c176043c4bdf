-- ===== src/Structs/Queue/Loops.antt =====
-- pkg/structs/queue.go: what an iterator does to the list that `ForEach` runs over.
use cicd_operator.Base.{
  Eq, nat_eq, length, str_eq, ℕ, ◌+◌, ◌≤◌, ◌≡◌, refl, Bool, List, [], ◌∷◌, arith,
}
use cicd_operator.Structs.Queue.{for_each, count}
use cicd_operator.Structs.Queue.Keys.{has, Unique}

module _ {A S : Type 0} (f : S → A → S × A) where
  pub length-for_each : (s : S) (q : List A) → length (for_each f s q).1 ≡ length q
  unfolding for_each
  length-for_each s [] = refl
  length-for_each s (x ∷ xs) = omega (arith, length-for_each (f s x).0 xs)

  -- A measure that no call raises is not raised by the loop.
  pub for_each_measure :
      (m : S → ℕ)
      → ((s : S) (x : A) → m (f s x).0 ≤ m s)
      → (s : S) (q : List A) → m (for_each f s q).0 ≤ m s
  unfolding for_each
  for_each_measure m h s [] = omega arith
  for_each_measure m h s (x ∷ xs) = omega (arith, h s x, for_each_measure m h (f s x).0 xs)

  pub for_each_invariant :
      (P : S → Type 0)
      → ((s : S) (x : A) → P s → P (f s x).0)
      → (s : S) (q : List A) → P s
      → P (for_each f s q).0
  unfolding for_each
  for_each_invariant P h s [] w = w
  for_each_invariant P h s (x ∷ xs) w = for_each_invariant P h (f s x).0 xs (h s x w)

  module _ {K : Type 0} ⦃e : Eq K⦄ (equals : A → A → Bool) (key : A → K) where
    -- An iterator that leaves the key of each item alone leaves alone which keys the list holds.
    pub has-for_each :
        (h : (s : S) (x : A) → key (f s x).1 ≡ key x) (k : K) (s : S) (q : List A)
        → has equals key k (for_each f s q).1 ≡ has equals key k q
    unfolding for_each
    has-for_each h k s [] = refl
    has-for_each h k s (x ∷ xs) = rw (h s x, has-for_each h k (f s x).0 xs)

    pub for_each-Unique :
        (h : (s : S) (x : A) → key (f s x).1 ≡ key x) (s : S) (q : List A)
        → Unique equals key q
        → Unique equals key (for_each f s q).1
    unfolding for_each
    for_each-Unique h s [] u = u
    for_each-Unique h s (x ∷ xs) u =
        (rw (h s x, has-for_each h (key x) (f s x).0 xs) u.0, for_each-Unique h (f s x).0 xs u.1)

module _ {A : Type 0} where
  count_up : (i : ℕ) (q : List A) → (for_each {S = ℕ} (λ i x. (i + 1, x)) i q).0 ≡ i + length q
  unfolding for_each
  count_up i [] = omega arith
  count_up i (x ∷ xs) = omega (arith, count_up (i + 1) xs)

  pub count-length : (q : List A) → count q ≡ length q
  unfolding count
  count-length q = omega (arith, count_up 0 q)
