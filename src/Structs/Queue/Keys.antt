-- ===== src/Structs/Queue/Keys.antt =====
-- pkg/structs/queue.go: which keys the list holds, where `Equals` compares a key.
use cicd_operator.Base.{
  if◌then◌else◌, Eq, ◌==◌, nat_eq, anyb, str_eq, ◌≡◌, refl, ap, ◌∙◌, ◌≢◌, Bool, false, ◌||◌, Option,
  none, some, List, [], ◌∷◌, ◌++◌, arith,
}
use cicd_operator.Structs.Queue.{seek, position, last?, first, equals_opt, add, delete}

module _ {A K : Type 0} ⦃e : Eq K⦄ (equals : A → A → Bool) (key : A → K) where
  -- `Equals` compares keys.
  abbrev pub Compares : Type 0
  Compares = (a b : A) → equals a b ≡ (key a == key b)

  abbrev pub has : K → List A → Bool
  has k q = anyb (λ a. key a == k) q

  abbrev pub Unique : List A → Type 0
  Unique [] = Unit {0}
  Unique (x ∷ xs) = (has (key x) xs ≡ false) × Unique xs

  has-append : (k : K) (xs ys : List A) → has k (xs ++ ys) ≡ (has k xs || has k ys)
  has-append k [] ys = refl
  has-append k (x ∷ xs) ys = ground (arith, has-append k xs ys)

  -- Where `Equals` compares keys and no key is repeated, the list after `Delete` holds the keys that
  -- it held but for the deleted one.
  pub has-delete :
      (law : Compares) (i : A) (k : K) (q : List A)
      → Unique q
      → has k (delete equals i q) ≡ (if key i == k then false else has k q)
  unfolding delete
  has-delete law i k [] u = ground arith
  has-delete law i k (x ∷ xs) u = ground (
    arith,
    law x i,
    e.beq_iff (key x) (key i),
    e.beq_iff (key i) k,
    e.beq_iff (key x) k,
    has-delete law i k xs u.1,
  )

  pub delete-Unique : (law : Compares) (i : A) (q : List A) → Unique q → Unique (delete equals i q)
  unfolding delete
  delete-Unique law i [] u = tt
  delete-Unique law i (x ∷ xs) u = ground (
    arith,
    law x i,
    e.beq_iff (key i) (key x),
    has-delete law i (key x) xs u.1,
    delete-Unique law i xs u.1,
  )

  -- The nodes of the list are those before the new one and those after it.
  pub position_split :
      (compare : Option (A → A → Bool)) (item : A) (q : List A)
      → (position compare item q).0 ++ (position compare item q).1 ≡ q
  unfolding position seek
  position_split none item q = refl
  position_split (some compare) item [] = refl
  position_split (some compare) item (n ∷ rest) =
      ground (arith, position_split (some compare) item rest)

  has-splice :
      (k : K) (item : A) (xs ys : List A)
      → has k (xs ++ item ∷ ys) ≡ (key item == k || has k (xs ++ ys))
  has-splice k item [] ys = refl
  has-splice k item (x ∷ xs) ys = ground (arith, has-splice k item xs ys)

  splice-Unique :
      (item : A) (xs ys : List A)
      → has (key item) (xs ++ ys) ≡ false
      → Unique (xs ++ ys)
      → Unique (xs ++ item ∷ ys)
  splice-Unique item [] ys h u = (h, u)
  splice-Unique item (x ∷ xs) ys h u = ground (
    arith,
    e.beq_iff (key item) (key x),
    e.beq_iff (key x) (key item),
    has-splice (key x) item xs ys,
    splice-Unique item xs ys,
  )

  equals_last :
      (law : Compares) (item : A) (q : List A) (h : has (key item) q ≡ false)
      → equals_opt equals item (last? q) ≡ false
  equals_last law item [] h = refl
  equals_last law item (x ∷ []) h =
      ground (arith, law item x, e.beq_iff (key item) (key x), e.beq_iff (key x) (key item))
  equals_last law item (x ∷ y ∷ xs) h = equals_last law item (y ∷ xs) (ground arith)

  equals-first :
      (law : Compares) (item : A) (q : List A) (h : has (key item) q ≡ false)
      → equals_opt equals item (first q) ≡ false
  equals-first law item [] h = refl
  equals-first law item (x ∷ xs) h =
      ground (arith, law item x, e.beq_iff (key item) (key x), e.beq_iff (key x) (key item))

  -- An item whose key is not in the list is put in.
  add_new :
      (law : Compares) (compare : Option (A → A → Bool)) (item : A) (q : List A)
      → has (key item) q ≡ false
      → add equals compare item q
        ≡ (position compare item q).0 ++ item ∷ (position compare item q).1
  unfolding add
  add_new law compare item q h =
      let (before, after) = position compare item q in
      let s : has (key item) (before ++ after) ≡ false = rw (position_split compare item q) h in
      let b : has (key item) before ≡ false =
        ground (arith, s, has-append (key item) before after) in
      let a : has (key item) after ≡ false =
        ground (arith, s, has-append (key item) before after) in
      rw (equals_last law item before b, equals-first law item after a)

  pub has-add :
      (law : Compares) (compare : Option (A → A → Bool)) (item : A) (k : K) (q : List A)
      → has (key item) q ≡ false
      → has k (add equals compare item q) ≡ (key item == k || has k q)
  has-add law compare item k q h = rw (add_new law compare item q h) (
      has-splice k item (position compare item q).0 (position compare item q).1
      ∙ ap (λ (l : List A). key item == k || has k l) (position_split compare item q))

  pub add-Unique :
      (law : Compares) (compare : Option (A → A → Bool)) (item : A) (q : List A)
      → has (key item) q ≡ false
      → Unique q
      → Unique (add equals compare item q)
  add-Unique law compare item q h u = rw (add_new law compare item q h) (
      splice-Unique item (position compare item q).0 (position compare item q).1
        (rw (position_split compare item q) h) (rw (position_split compare item q) u))

  -- Where `Equals` compares keys and there is no comparison, only the first node is looked at: an item
  -- that stands behind one with another key comes in a second time, and the list holds its key twice.
  pub add_twice :
      (law : Compares) (x y : A) (q : List A)
      → key x ≢ key y
      → (add equals none x (add equals none y (x ∷ q)) ≡ x ∷ y ∷ x ∷ q)
        × (¬ Unique (add equals none x (add equals none y (x ∷ q))))
  unfolding add position
  add_twice law x y q n = ground (
    arith,
    law x y,
    law y x,
    e.beq_iff (key x) (key x),
    e.beq_iff (key y) (key x),
    e.beq_iff (key x) (key y),
    n,
  )
