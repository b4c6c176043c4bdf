-- ===== src/Blocker/Merge/Order.antt =====
-- pkg/blocker/merge.go: the order of the candidates, and which of them make a batch.
use cicd_operator.Base.{
  In-filterb_iff, leb, Bool-cases, nat_eq, length, take, length-take, filterb, In, All, Str,
  str_beq_iff, str_eq, Map, get, ℕ, zero, suc, ◌≤◌, ◌≡◌, refl, sym, ap, ◌∙◌, ◌↔◌, ◌⊎◌, inl, inr,
  Bool, true, Option, none, some, List, [], ◌∷◌, arith,
}
use mathlib.Core.Path.{subst}
use cicd_operator.Api.{get_branch}
use cicd_operator.Blocker.Pool.{Tracked}
use cicd_operator.Blocker.Merge.{insert_by_id, sort_by_id, on_branch, collect_batch}

abbrev AtLeast : ℕ → List (ℕ × Tracked) → Type 0
AtLeast n = All (λ x. n ≤ x.1.raw.id)

-- The ids do not fall from one candidate to the next.
abbrev pub Ascending : List (ℕ × Tracked) → Type 0
Ascending [] = Unit {0}
Ascending (x ∷ l) = AtLeast x.1.raw.id l × Ascending l

AtLeast-trans : (n k : ℕ) (l : List (ℕ × Tracked)) → n ≤ k → AtLeast k l → AtLeast n l
AtLeast-trans n k [] h a = tt
AtLeast-trans n k (x ∷ l) h a = (ground (arith, h, a.0), AtLeast-trans n k l h a.1)

AtLeast-insert :
    (n : ℕ) (x : ℕ × Tracked) (l : List (ℕ × Tracked))
    → n ≤ x.1.raw.id
    → AtLeast n l
    → AtLeast n (insert_by_id x l)
unfolding insert_by_id
AtLeast-insert n x [] h a = (h, tt)
AtLeast-insert n x (y ∷ l) h a = elim (Bool-cases (leb x.1.raw.id y.1.raw.id)) [
  | inl e ↦ rw e (h, (a.0, a.1))
  | inr e ↦ rw e (a.0, AtLeast-insert n x l h a.1)
]

insert-Ascending :
    (x : ℕ × Tracked) (l : List (ℕ × Tracked)) → Ascending l → Ascending (insert_by_id x l)
unfolding insert_by_id
insert-Ascending x [] h = (tt, tt)
insert-Ascending x (y ∷ l) h = elim (Bool-cases (leb x.1.raw.id y.1.raw.id)) [
  | inl e ↦
      let le : x.1.raw.id ≤ y.1.raw.id = ground (arith, e) in
      rw e ((le, AtLeast-trans x.1.raw.id y.1.raw.id l le h.0), h)
  | inr e ↦
      let ge : y.1.raw.id ≤ x.1.raw.id = ground (arith, e) in
      rw e (AtLeast-insert y.1.raw.id x l ge h.0, insert-Ascending x l h.1)
]

In-insert_by_id :
    (y x : ℕ × Tracked) (l : List (ℕ × Tracked)) → In y (insert_by_id x l) ↔ ((y ≡ x) ⊎ In y l)
unfolding insert_by_id
In-insert_by_id y x [] = ((λ h. h), λ h. h)
In-insert_by_id y x (z ∷ l) =
    let rest = In-insert_by_id y x l in
    elim (Bool-cases (leb x.1.raw.id z.1.raw.id)) [
      | inl e ↦ rw e ((λ h. h), λ h. h)
      | inr e ↦ rw e (
        elim [
          | inl q ↦ inr (inl q)
          | inr m ↦ elim (rest.0 m) [ inl q ↦ inl q | inr k ↦ inr (inr k) ]
        ],
        elim [
          | inl q ↦ inr (rest.1 (inl q))
          | inr m ↦ elim m [ inl q ↦ inl q | inr k ↦ inr (rest.1 (inr k)) ]
        ],
      )
    ]

-- An entry of the map points to the object.
abbrev pub PointsTo : ℕ × Tracked → Map ℕ ℕ → Map ℕ Tracked → Type 0
PointsTo x prs store = (id : ℕ) × In (id, x.0) prs × (get x.0 store ≡ some x.1)

sort_by_id-In :
    (prs : Map ℕ ℕ) (store : Map ℕ Tracked) (x : ℕ × Tracked)
    → In x (sort_by_id prs store) ↔ PointsTo x prs store
unfolding sort_by_id
sort_by_id-In [] store x = ((λ m. absurd m), λ h. absurd (h.1))
sort_by_id-In ((id, a) ∷ prs) store x =
    step (get a store) refl (sort_by_id prs store) (sort_by_id-In prs store x)
  where
    some_injective : (t u : Tracked) → some t ≡ some u → t ≡ u
    some_injective t u h = cc h

    step :
        (o : Option Tracked)
        → get a store ≡ o
        → (rest : List (ℕ × Tracked)) → In x rest ↔ PointsTo x prs store
        → In x (elim o [ none ↦ rest | some t ↦ insert_by_id (a, t) rest ])
          ↔ PointsTo x ((id, a) ∷ prs) store
    step none q rest ih = (
      (λ m. let (i, k, g) = ih.0 m in (i, inr k, g)),
      λ h. elim (h.1) [
        | inl e ↦ absurd (cc (h.2, q, ap (λ (z : ℕ × ℕ). get z.1 store) e))
        | inr k ↦ ih.1 (h.0, k, h.2)
      ],
    )
    step (some t) q rest ih =
        let ins = In-insert_by_id x (a, t) rest in
        (
          (λ m. elim (ins.0 m) [
            | inl e ↦ (
              id,
              inl (ap (λ (z : ℕ × Tracked). (id, z.0)) e),
              subst (λ (z : ℕ × Tracked). get z.0 store ≡ some z.1) (sym e) q,
            )
            | inr k ↦ let (i, n, g) = ih.0 k in (i, inr n, g)
          ]),
          λ h. elim (h.1) [
            | inl e ↦
                let same : x.1 ≡ t =
                  some_injective x.1 t (sym (h.2) ∙ (ap (λ (z : ℕ × ℕ). get z.1 store) e ∙ q)) in
                ins.1 (inl (pair (ap (λ (z : ℕ × ℕ). z.1) e) same))
            | inr k ↦ ins.1 (inr (ih.1 (h.0, k, h.2)))
          ],
        )
      where
        pair : x.0 ≡ a → x.1 ≡ t → x ≡ (a, t)
        pair e f = cc (e, f)

sort_by_id-Ascending : (prs : Map ℕ ℕ) (store : Map ℕ Tracked) → Ascending (sort_by_id prs store)
unfolding sort_by_id
sort_by_id-Ascending [] store = tt
sort_by_id-Ascending ((id, a) ∷ prs) store =
    let rest = sort_by_id-Ascending prs store in
    elim (get a store)
      as (λ o. Ascending (elim o [
        | none ↦ sort_by_id prs store
        | some t ↦ insert_by_id (a, t) (sort_by_id prs store)
      ])) [ none ↦ rest | some t ↦ insert-Ascending (a, t) (sort_by_id prs store) rest ]

-- The candidates are the objects that the entries of the map point to, in the order of their ids, the oldest first.
pub sort_by_id_lem :
    (prs : Map ℕ ℕ) (store : Map ℕ Tracked)
    → Ascending (sort_by_id prs store)
      × ((x : ℕ × Tracked) → In x (sort_by_id prs store) ↔ PointsTo x prs store)
sort_by_id_lem prs store = (sort_by_id-Ascending prs store, sort_by_id-In prs store)

module _ (p : ℕ × Tracked → Bool) where
  AtLeast-filterb : (n : ℕ) (l : List (ℕ × Tracked)) → AtLeast n l → AtLeast n (filterb p l)
  AtLeast-filterb n [] h = tt
  AtLeast-filterb n (x ∷ l) h = elim (Bool-cases (p x)) [
    | inl e ↦ rw e (h.0, AtLeast-filterb n l h.1)
    | inr e ↦ rw e (AtLeast-filterb n l h.1)
  ]

  filterb-Ascending : (l : List (ℕ × Tracked)) → Ascending l → Ascending (filterb p l)
  filterb-Ascending [] h = tt
  filterb-Ascending (x ∷ l) h = elim (Bool-cases (p x)) [
    | inl e ↦ rw e (AtLeast-filterb x.1.raw.id l h.0, filterb-Ascending l h.1)
    | inr e ↦ rw e (filterb-Ascending l h.1)
  ]

AtLeast-take : (n k : ℕ) (l : List (ℕ × Tracked)) → AtLeast n l → AtLeast n (take k l)
AtLeast-take n zero l h = tt
AtLeast-take n (suc k) [] h = tt
AtLeast-take n (suc k) (x ∷ l) h = (h.0, AtLeast-take n k l h.1)

take-Ascending : (k : ℕ) (l : List (ℕ × Tracked)) → Ascending l → Ascending (take k l)
take-Ascending zero l h = tt
take-Ascending (suc k) [] h = tt
take-Ascending (suc k) (x ∷ l) h = (AtLeast-take x.1.raw.id k l h.0, take-Ascending k l h.1)

In-take : (x : ℕ × Tracked) (k : ℕ) (l : List (ℕ × Tracked)) → In x (take k l) → In x l
In-take x zero l h = absurd h
In-take x (suc k) [] h = absurd h
In-take x (suc k) (y ∷ l) (inl e) = inl e
In-take x (suc k) (y ∷ l) (inr m) = inr (In-take x k l m)

In-take_or_full :
    (x : ℕ × Tracked) (k : ℕ) (l : List (ℕ × Tracked))
    → In x l
    → In x (take k l) ⊎ (length (take k l) ≡ k)
In-take_or_full x zero l h = inr refl
In-take_or_full x (suc k) [] h = absurd h
In-take_or_full x (suc k) (y ∷ l) (inl e) = inl (inl e)
In-take_or_full x (suc k) (y ∷ l) (inr m) = elim (In-take_or_full x k l m) [
  | inl i ↦ inl (inr i)
  | inr q ↦ inr (ap suc q)
]

-- What a batch for a branch holds: at most ten candidates, each into that branch, oldest first.
pub record IsBatch (branch : Str) (candidates l : List (ℕ × Tracked)) : Type 0 where
  pub few : length l ≤ 10
  pub chosen : (x : ℕ × Tracked) → In x l → In x candidates
  pub into : (x : ℕ × Tracked) → In x l → get_branch x.1.raw.base.ref ≡ branch
  pub ascending : Ascending l
  pub full :
      (x : ℕ × Tracked)
      → In x candidates
      → get_branch x.1.raw.base.ref ≡ branch
      → In x l ⊎ (length l ≡ 10)

-- From candidates in the order of their ids a batch takes candidates into the branch, in the order of
-- their ids: all of them, or ten.
pub collect_batch-IsBatch :
    (branch : Str) (candidates : List (ℕ × Tracked))
    → Ascending candidates
    → IsBatch branch candidates (collect_batch branch candidates)
unfolding collect_batch
collect_batch-IsBatch branch candidates h = record {
  few = omega (arith, length-take 10 (filterb (on_branch branch) candidates));
  chosen = λ x m.
      ((In-filterb_iff (on_branch branch) x candidates).0
        (In-take x 10 (filterb (on_branch branch) candidates) m)).0;
  into = λ x m.
      same x
        ((In-filterb_iff (on_branch branch) x candidates).0
          (In-take x 10 (filterb (on_branch branch) candidates) m)).1;
  ascending =
      take-Ascending 10 (filterb (on_branch branch) candidates)
        (filterb-Ascending (on_branch branch) candidates h);
  full = λ x m e.
      In-take_or_full x 10 (filterb (on_branch branch) candidates)
        ((In-filterb_iff (on_branch branch) x candidates).1 (m, back x e));
}
  where
    same : (x : ℕ × Tracked) → on_branch branch x ≡ true → get_branch x.1.raw.base.ref ≡ branch
    same x e = (str_beq_iff (get_branch x.1.raw.base.ref) branch).0 (unfold on_branch in e)

    back : (x : ℕ × Tracked) → get_branch x.1.raw.base.ref ≡ branch → on_branch branch x ≡ true
    back x e = unfold on_branch in (str_beq_iff (get_branch x.1.raw.base.ref) branch).1 e
