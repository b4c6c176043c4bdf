-- ===== src/GitClient/Results.antt =====
-- Chains of results that make no requests, and the loops of Go code that return at the first error.
use cicd_operator.Base.{All, map, ◌≡◌, refl, List, [], ◌∷◌}
use cicd_operator.GitClient.{Result, ok, err}

module _ {ℓ κ} {A : Type ℓ} {B : Type κ} where
  infixl 5 ◌>>=◌
  -- The first error ends a chain.
  abbrev pub ◌>>=◌ : Result A → (A → Result B) → Result B
  err e >>= next = err e
  ok x >>= next = next x

  -- The steps of a chain that succeeds.
  pub >>=-eq-ok :
      (r : Result A) (next : A → Result B) {y : B}
      → (r >>= next) ≡ ok y
      → (x : A) × (r ≡ ok x) × (next x ≡ ok y)
  >>=-eq-ok (err e) next h = cc
  >>=-eq-ok (ok x) next h = (x, refl, h)

pub ok-injective {ℓ} : {A : Type ℓ} {a b : A} → Result.ok a ≡ ok b → a ≡ b
ok-injective h = cc

module _ {A B : Type 0} where
  -- A loop that collects a result for each item.
  unfoldable pub each : (A → Result B) → List A → Result (List B)
  each f [] = ok []
  each f (x ∷ xs) = do y ← f x; ys ← each f xs; ok (y ∷ ys)

  -- Two lists of one length, with a relation between the items at each place.
  abbrev pub Pairwise : (A → B → Type 0) → List A → List B → Type 0
  Pairwise R [] [] = Unit
  Pairwise R [] (y ∷ ys) = ⊥
  Pairwise R (x ∷ xs) [] = ⊥
  Pairwise R (x ∷ xs) (y ∷ ys) = R x y × Pairwise R xs ys

  pub each-Pairwise :
      (f : A → Result B) (R : A → B → Type 0)
      → ((x : A) (y : B) → f x ≡ ok y → R x y)
      → (xs : List A) (ys : List B) → each f xs ≡ ok ys
      → Pairwise R xs ys
  unfolding each
  each-Pairwise f R h [] [] e = tt
  each-Pairwise f R h [] (y ∷ ys) e = cc
  each-Pairwise f R h (x ∷ xs) l e =
      let (y, ey, e') = >>=-eq-ok (f x) _ e in
      let (ys, eys, e'') = >>=-eq-ok (each f xs) _ e' in
      rw (← ok-injective e'') (h x y ey, each-Pairwise f R h xs ys eys)

  -- What each result has that the loop collects.
  pub each-All :
      (f : A → Result B) (P : B → Type 0)
      → ((x : A) (y : B) → f x ≡ ok y → P y)
      → (xs : List A) (ys : List B) → each f xs ≡ ok ys
      → All P ys
  unfolding each
  each-All f P h [] ys e = rw (← ok-injective e) tt
  each-All f P h (x ∷ xs) l e =
      let (y, ey, e') = >>=-eq-ok (f x) _ e in
      let (ys, eys, e'') = >>=-eq-ok (each f xs) _ e' in
      rw (← ok-injective e'') (h x y ey, each-All f P h xs ys eys)

  pub Pairwise-map :
      {C : Type 0} (f : A → C) (g : B → C) (xs : List A) (ys : List B)
      → Pairwise (λ x y. g y ≡ f x) xs ys
      → map g ys ≡ map f xs
  Pairwise-map f g [] [] h = refl
  Pairwise-map f g [] (y ∷ ys) h = absurd h
  Pairwise-map f g (x ∷ xs) [] h = absurd h
  Pairwise-map f g (x ∷ xs) (y ∷ ys) (e, h) = cc (e, Pairwise-map f g xs ys h)

-- Two relations in turn.
pub Pairwise-trans :
    {A B C : Type 0} (R : A → B → Type 0) (S : B → C → Type 0) (T : A → C → Type 0)
    → ((x : A) (y : B) (z : C) → R x y → S y z → T x z)
    → (xs : List A) (ys : List B) (zs : List C) → Pairwise R xs ys
    → Pairwise S ys zs
    → Pairwise T xs zs
Pairwise-trans R S T f [] [] [] h k = tt
Pairwise-trans R S T f [] [] (z ∷ zs) h k = absurd k
Pairwise-trans R S T f [] (y ∷ ys) zs h k = absurd h
Pairwise-trans R S T f (x ∷ xs) [] zs h k = absurd h
Pairwise-trans R S T f (x ∷ xs) (y ∷ ys) [] h k = absurd k
Pairwise-trans R S T f (x ∷ xs) (y ∷ ys) (z ∷ zs) h k =
    (f x y z h.0 k.0, Pairwise-trans R S T f xs ys zs h.1 k.1)
