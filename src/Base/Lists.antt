-- ===== src/Base/Lists.antt =====
-- Lists measured by native numbers, and membership as a predicate by recursion.
use Prim.Native.Nat.{ℕ, zero, suc, ◌+◌, min}
use mathlib.Core.Path.{◌≡◌, refl, ap, sym, subst}
use mathlib.Core.Logic.{◌⊎◌, ◌↔◌, inl, inr}
use mathlib.Core.Bool.{Bool, true, false, ◌||◌}
use mathlib.Core.List.{List, [], ◌∷◌, ◌++◌}
use native.Mathlib.Omega.{arith}
use cicd_operator.Base.Tests.{if◌then◌else◌, Bool-cases}

module _ {ℓ} {A : Type ℓ} where
  abbrev pub length : List A → ℕ
  length [] = 0
  length (x ∷ xs) = suc (length xs)

  abbrev pub take : ℕ → List A → List A
  take zero xs = []
  take (suc n) [] = []
  take (suc n) (x ∷ xs) = x ∷ take n xs

  abbrev pub drop : ℕ → List A → List A
  drop zero xs = xs
  drop (suc n) [] = []
  drop (suc n) (x ∷ xs) = drop n xs

  abbrev pub replicate : ℕ → A → List A
  replicate zero a = []
  replicate (suc n) a = a ∷ replicate n a

  pub length-append : (xs ys : List A) → length (xs ++ ys) ≡ length xs + length ys
  length-append [] ys = omega arith
  length-append (x ∷ xs) ys = omega (arith, length-append xs ys)

  pub length-take : (n : ℕ) (xs : List A) → length (take n xs) ≡ min n (length xs)
  length-take zero xs = omega arith
  length-take (suc n) [] = omega arith
  length-take (suc n) (x ∷ xs) = omega (arith, length-take n xs)

  pub length-replicate : (n : ℕ) (a : A) → length (replicate n a) ≡ n
  length-replicate zero a = refl
  length-replicate (suc n) a = ap suc (length-replicate n a)

  abbrev pub filterb : (A → Bool) → List A → List A
  filterb p [] = []
  filterb p (x ∷ xs) = if p x then x ∷ filterb p xs else filterb p xs

  abbrev pub anyb : (A → Bool) → List A → Bool
  anyb p [] = false
  anyb p (x ∷ xs) = p x || anyb p xs

module _ {A : Type 0} where
  -- Membership, with the place kept.
  abbrev pub In : A → List A → Type 0
  In a [] = ⊥
  In a (x ∷ xs) = (a ≡ x) ⊎ In a xs

  abbrev pub All : (A → Type 0) → List A → Type 0
  All P [] = Unit {0}
  All P (x ∷ xs) = P x × All P xs

pub In-append : {A : Type 0} (a : A) (l m : List A) → In a (l ++ m) → In a l ⊎ In a m
In-append a [] m h = inr h
In-append a (x ∷ l) m (inl q) = inl (inl q)
In-append a (x ∷ l) m (inr h) = elim (In-append a l m h) [ inl k ↦ inl (inr k) | inr k ↦ inr k ]

-- Membership in a filtered list.
pub In-filterb_iff :
    {A : Type 0} (p : A → Bool) (a : A) (l : List A) → In a (filterb p l) ↔ (In a l × (p a ≡ true))
In-filterb_iff {A} p a l = (there l, back l)
  where
    kept :
        (x : A) (xs : List A)
        → (In a (filterb p xs) → In a xs × (p a ≡ true))
        → p x ≡ true
        → In a (x ∷ filterb p xs)
        → In a (x ∷ xs) × (p a ≡ true)
    kept x xs ih e (inl q) = (inl q, subst (λ z. p z ≡ true) (sym q) e)
    kept x xs ih e (inr m) = let (k, q) = ih m in (inr k, q)

    there : (xs : List A) → In a (filterb p xs) → In a xs × (p a ≡ true)
    there [] h = absurd h
    there (x ∷ xs) h = elim (Bool-cases (p x)) [
      | inl e ↦
          kept x xs (λ m. there xs m) e
            (subst (λ b. In a (if b then x ∷ filterb p xs else filterb p xs)) e h)
      | inr e ↦
          let (m, q) =
            there xs (subst (λ b. In a (if b then x ∷ filterb p xs else filterb p xs)) e h) in
          (inr m, q)
    ]

    back : (xs : List A) → In a xs × (p a ≡ true) → In a (filterb p xs)
    back [] (m, e) = m
    back (x ∷ xs) (inl q, e) = rw (subst (λ z. p z ≡ true) q e) (inl q)
    back (x ∷ xs) (inr m, e) = elim (Bool-cases (p x)) [
      | inl k ↦ rw k (inr (back xs (m, e)))
      | inr k ↦ rw k (back xs (m, e))
    ]
