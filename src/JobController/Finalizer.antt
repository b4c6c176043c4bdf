-- ===== src/JobController/Finalizer.antt =====
-- controllers/integrationjob_controller.go: the finalizer of a job that is deleted.
use cicd_operator.Base.{
  Bool-cases, ◌==◌, nat_eq, ==_iff, Str, str_eq, ◌≡◌, refl, sym, ◌⊎◌, inl, inr, true, none, some,
  List, [], ◌∷◌, arith,
}
use mathlib.Core.Path.{subst}
use mathlib.Core.List.{Perm}
use mathlib.Core.List.Perm
use cicd_operator.JobController.{finalizer, has_finalizer, split_last, remove_finalizer}

split_last-Perm :
    (l : List Str)
    → ((l ≡ []) × (split_last l ≡ none))
      ⊎ ((front : List Str) × (z : Str) × (split_last l ≡ some (front, z)) × Perm (z ∷ front) l)
unfolding split_last
split_last-Perm [] = inl (refl, refl)
split_last-Perm (f ∷ l) = elim (split_last-Perm l) [
  | inl (e, q) ↦
      inr
        ([], f, ground (arith, q), subst (λ t. Perm (f ∷ []) (f ∷ t)) (sym e) (Perm.refl (f ∷ [])))
  | inr (front, z, q, p) ↦
      inr (f ∷ front, z, ground (arith, q), Perm.trans (Perm.swap f z front) (Perm.cons f p))
]

put_first :
    (f : Str) (front : List Str) (l : List Str)
    → f ≡ finalizer
    → Perm front l
    → Perm (finalizer ∷ front) (f ∷ l)
put_first f front l e p = subst (λ t. Perm (t ∷ front) (f ∷ l)) e (Perm.cons f p)

-- Where the operator's finalizer is among the finalizers, its removal takes away one occurrence of it
-- and keeps all others, in some order.
pub remove_finalizer-Perm :
    (l : List Str) → has_finalizer l ≡ true → Perm (finalizer ∷ remove_finalizer l) l
unfolding has_finalizer remove_finalizer
remove_finalizer-Perm [] h = ground (arith, h)
remove_finalizer-Perm (f ∷ l) h = elim (Bool-cases (f == finalizer)) [
  | inl t ↦ elim (split_last-Perm l) [
    | inl (e, q) ↦
        rw (t, q)
          (put_first f [] l ((==_iff f finalizer).0 t) (subst (Perm []) (sym e) (Perm.refl [])))
    | inr (front, z, q, p) ↦ rw (t, q) (put_first f (z ∷ front) l ((==_iff f finalizer).0 t) p)
  ]
  | inr e ↦
      let later : has_finalizer l ≡ true = ground (arith, e, h) in
      rw e (
        Perm.trans (Perm.swap f finalizer (remove_finalizer l))
          (Perm.cons f (remove_finalizer-Perm l later)))
]
