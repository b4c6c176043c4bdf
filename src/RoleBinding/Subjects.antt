-- ===== src/RoleBinding/Subjects.antt =====
-- controllers/approval_controller.go: whom the role binding of an approval names.
use cicd_operator.Base.{
  if◌then◌else◌, Bool-cases, Option-cases, ◌==◌, nat_eq, ==_iff, In, Str, str_eq, ◌≡◌, refl, sym,
  ap, ◌∙◌, ◌↔◌, ◌⊎◌, inl, inr, true, Option, some, List, [], ◌∷◌, ◌++◌, arith,
}
use mathlib.Core.Path.{subst}
use cicd_operator.Api.Tasks.{ApprovalUser}
use cicd_operator.RoleBinding.{Subject, subject_eq, subject_of, has_subject, add_subjects}

has_subject_lem : (s : Subject) (l : List Subject) → has_subject s l ≡ true → In s l
unfolding has_subject
has_subject_lem s [] h = ground (arith, h)
has_subject_lem s (t ∷ l) h = elim (Bool-cases (t == s)) [
  | inl e ↦ inl (sym ((==_iff t s).0 e))
  | inr f ↦ inr (has_subject_lem s l (ground (arith, f, h)))
]

In-snoc : (s t : Subject) (l : List Subject) → In s (l ++ t ∷ []) ↔ (In s l ⊎ (s ≡ t))
In-snoc s t [] = ground arith
In-snoc s t (x ∷ l) = ground (arith, In-snoc s t l)

In-put :
    (s t : Subject) (l : List Subject)
    → In s (if has_subject t l then l else l ++ t ∷ []) ↔ (In s l ⊎ (s ≡ t))
In-put s t l = elim (Bool-cases (has_subject t l)) [
  | inl h ↦ rw h (
    (λ m. inl m),
    elim [ inl m ↦ m | inr e ↦ subst (λ z. In z l) (sym e) (has_subject_lem t l h) ],
  )
  | inr f ↦ ground (arith, f, In-snoc s t l)
]

no_subject : {s : Subject} → Option.none ≡ some s → ⊥
no_subject e = ground (arith, e)

one_subject : {s t : Subject} → some s ≡ some t → s ≡ t
one_subject e = ground (arith, e)

-- A user among them has this subject.
abbrev pub Named : Str → List ApprovalUser → Subject → Type 0
Named namespace users s = (u : ApprovalUser) × In u users × (subject_of namespace u ≡ some s)

-- The binding names the subjects that it named before and those of the approval's users, and no others; so one whose
-- user was taken from the approval stays.
pub In-add_subjects :
    (namespace : Str) (users : List ApprovalUser) (l : List Subject) (s : Subject)
    → In s (add_subjects namespace users l) ↔ (In s l ⊎ Named namespace users s)
unfolding add_subjects
In-add_subjects namespace [] l s = ((λ m. inl m), elim [ inl m ↦ m | inr n ↦ absurd n.1 ])
In-add_subjects namespace (u ∷ users) l s = elim (Option-cases (subject_of namespace u)) [
  | inl n ↦
      let rest = In-add_subjects namespace users l s in
      rw n (
        (λ m. elim (rest.0 m) [ inl k ↦ inl k | inr k ↦ inr (k.0, inr k.1, k.2) ]),
        elim [
          | inl k ↦ rest.1 (inl k)
          | inr k ↦ elim k.1 [
            | inl e ↦ absurd (no_subject (sym n ∙ (ap (subject_of namespace) (sym e) ∙ k.2)))
            | inr i ↦ rest.1 (inr (k.0, i, k.2))
          ]
        ],
      )
  | inr (t, q) ↦
      let rest = In-add_subjects namespace users (if has_subject t l then l else l ++ t ∷ []) s in
      let here = In-put s t l in
      rw q (
        (λ m. elim (rest.0 m) [
          | inl k ↦ elim (here.0 k) [
            | inl i ↦ inl i
            | inr e ↦ inr (u, inl refl, q ∙ ap some (sym e))
          ]
          | inr k ↦ inr (k.0, inr k.1, k.2)
        ]),
        elim [
          | inl k ↦ rest.1 (inl (here.1 (inl k)))
          | inr k ↦ elim k.1 [
            | inl e ↦
                rest.1
                  (inl (here.1 (inr (one_subject (sym k.2 ∙ (ap (subject_of namespace) e ∙ q))))))
            | inr i ↦ rest.1 (inr (k.0, i, k.2))
          ]
        ],
      )
]
