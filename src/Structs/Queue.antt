-- ===== src/Structs/Queue.antt =====
-- pkg/structs/queue.go. The doubly linked nodes are the list of their items from `nodes` on; an item is a
-- value, so `DeepCopy` is the identity, and an iterator that changes an item through its pointer
-- returns the new item.
pub mod Keys
pub mod Loops
use cicd_operator.Base.{
  if◌then◌else◌, nat_eq, str_eq, ℕ, zero, suc, ◌+◌, refl, Bool, false, Option, none, some, List, [],
  ◌∷◌, ◌++◌, arith,
}

module _ {A : Type 0} where
  -- The loop of `Add`: the nodes passed, the last of them `prevPtr`, and those from `nextPtr` on.
  unfoldable pub seek : (A → A → Bool) → A → List A → List A × List A
  seek compare item [] = ([], [])
  seek compare item (n ∷ rest) =
      let (before, after) = seek compare item rest in
      if compare item n then ([], n ∷ rest) else (n ∷ before, after)

  -- `compareFunc` may be nil: then `nextPtr` is the first node.
  unfoldable pub position : Option (A → A → Bool) → A → List A → List A × List A
  position none item q = ([], q)
  position (some compare) item q = seek compare item q

  abbrev pub last? : List A → Option A
  last? [] = none
  last? (x ∷ []) = some x
  last? (x ∷ y ∷ xs) = last? (y ∷ xs)

  abbrev pub first : List A → Option A
  first [] = none
  first (x ∷ xs) = some x

  -- `ForEach` with the state that the iterator closes over.
  unfoldable pub for_each {ℓ} : {S : Type ℓ} → (S → A → S × A) → S → List A → S × List A
  for_each f s [] = (s, [])
  for_each f s (x ∷ xs) =
      let (s', x') = f s x in let (s'', xs') = for_each f s' xs in (s'', x' ∷ xs')

  unfoldable pub count : List A → ℕ
  unfolding for_each
  count q = (for_each {S = ℕ} (λ i x. (i + 1, x)) 0 q).0

  module _ (equals : A → A → Bool) where
    abbrev pub equals_opt : A → Option A → Bool
    equals_opt item none = false
    equals_opt item (some a) = equals item a

    unfoldable pub add : Option (A → A → Bool) → A → List A → List A
    add compare item q =
        let (before, after) = position compare item q in
        if equals_opt item (last? before)
        then q
        else if equals_opt item (first after)
        then q
        else before ++ item ∷ after

    unfoldable pub delete : A → List A → List A
    delete i [] = []
    delete i (n ∷ rest) = if equals n i then rest else n ∷ delete i rest
