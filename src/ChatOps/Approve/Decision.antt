-- ===== src/ChatOps/Approve/Decision.antt =====
-- pkg/chatops/plugins/approve/handlers_approve.go: which comment decides a `/approve check`.
use cicd_operator.Base.{
  ltb, ltb→lt, Bool-cases, Option-cases, nat_eq, In, All, str_eq, ℕ, ◌≤◌, ◌<◌, ◌≡◌, refl, sym, ◌≢◌,
  ◌↔◌, ◌⊎◌, inl, inr, Bool, false, none, some, List, [], ◌∷◌, arith,
}
use mathlib.Core.Path.{subst}
use mathlib.Core.Path.{subst}
use cicd_operator.Git.{IssueComment}
use cicd_operator.ChatOps.Approve.{insert_comment, sort_comments, decide_comment, check_approval}

abbrev NotAfter : ℕ → List IssueComment → Type 0
NotAfter t = All (λ d. d.created_at ≤ t)

NotAfter-trans : (s t : ℕ) (l : List IssueComment) → s ≤ t → NotAfter s l → NotAfter t l
NotAfter-trans s t [] h a = tt
NotAfter-trans s t (d ∷ l) h a = (omega (arith, h, a.0), NotAfter-trans s t l h a.1)

unfoldable IsNewestFirst : List IssueComment → Type 0
IsNewestFirst [] = Unit {0}
IsNewestFirst (c ∷ l) = NotAfter c.created_at l × IsNewestFirst l

insert_comment-All :
    (P : IssueComment → Type 0) (c : IssueComment) (l : List IssueComment)
    → P c
    → All P l
    → All P (insert_comment c l)
unfolding insert_comment
insert_comment-All P c [] h a = (h, tt)
insert_comment-All P c (d ∷ l) h a = elim (Bool-cases (ltb c.created_at d.created_at)) [
  | inl t ↦ rw t (a.0, insert_comment-All P c l h a.1)
  | inr f ↦ rw f (h, a)
]

insert_comment-IsNewestFirst :
    (c : IssueComment) (l : List IssueComment)
    → IsNewestFirst l
    → IsNewestFirst (insert_comment c l)
unfolding insert_comment IsNewestFirst
insert_comment-IsNewestFirst c [] a = (tt, tt)
insert_comment-IsNewestFirst c (d ∷ l) a = elim (Bool-cases (ltb c.created_at d.created_at)) [
  | inl t ↦
      let h : c.created_at < d.created_at = ltb→lt _ _ t in
      rw t (
        insert_comment-All (λ x. x.created_at ≤ d.created_at) c l (omega arith) a.0,
        insert_comment-IsNewestFirst c l a.1,
      )
  | inr f ↦
      let h : d.created_at ≤ c.created_at = ground (arith, f) in
      rw f ((h, NotAfter-trans d.created_at c.created_at l h a.0), a)
]

sort_comments-IsNewestFirst : (l : List IssueComment) → IsNewestFirst (sort_comments l)
unfolding sort_comments IsNewestFirst
sort_comments-IsNewestFirst [] = tt
sort_comments-IsNewestFirst (c ∷ l) =
    insert_comment-IsNewestFirst c (sort_comments l) (sort_comments-IsNewestFirst l)

insert_comment-In :
    (x c : IssueComment) (l : List IssueComment) → In x (insert_comment c l) ↔ ((x ≡ c) ⊎ In x l)
unfolding insert_comment
insert_comment-In x c [] = ((λ h. h), λ h. h)
insert_comment-In x c (d ∷ l) = elim (Bool-cases (ltb c.created_at d.created_at)) [
  | inl t ↦ ground (arith, t, insert_comment-In x c l)
  | inr f ↦ ground (arith, f)
]

sort_comments-In : (x : IssueComment) (l : List IssueComment) → In x (sort_comments l) ↔ In x l
unfolding sort_comments
sort_comments-In x [] = ((λ h. h), (λ h. h))
sort_comments-In x (c ∷ l) =
    ground (arith, insert_comment-In x c (sort_comments l), sort_comments-In x l)

-- The comment that decides is one of the newest of those that say anything; without one the answer is no.
unfoldable pub Decided : List IssueComment → Bool → Type 0
Decided l b =
    ((c : IssueComment) × In c l
      × (decide_comment c ≡ some b)
      × ((d : IssueComment) → In d l → decide_comment d ≢ none → d.created_at ≤ c.created_at))
    ⊎ (((d : IssueComment) → In d l → decide_comment d ≡ none) × (b ≡ false))

All-In : {A : Type 0} (P : A → Type 0) (l : List A) → All P l → (x : A) → In x l → P x
All-In P [] a x m = absurd m
All-In P (y ∷ l) a x (inl e) = subst P (sym e) a.0
All-In P (y ∷ l) a x (inr m) = All-In P l a.1 x m

decided_here :
    (c : IssueComment) (l : List IssueComment) (b : Bool)
    → decide_comment c ≡ some b
    → check_approval (c ∷ l) ≡ b
unfolding check_approval
decided_here c l b e = ground (arith, e)

decided_later :
    (c : IssueComment) (l : List IssueComment)
    → decide_comment c ≡ none
    → check_approval (c ∷ l) ≡ check_approval l
unfolding check_approval
decided_later c l e = ground (arith, e)

Decided-cons :
    (c : IssueComment) (l : List IssueComment) (b : Bool)
    → decide_comment c ≡ none
    → Decided l b
    → Decided (c ∷ l) b
unfolding Decided
Decided-cons c l b n (inl (x, m, e, h)) = inl (
  x,
  inr m,
  e,
  λ d k s. elim k [
    | inl q ↦ absurd (s (subst (λ z. decide_comment z ≡ none) (sym q) n))
    | inr k ↦ h d k s
  ],
)
Decided-cons c l b n (inr (h, e)) =
    inr (
      (λ d k. elim k [ inl q ↦ subst (λ z. decide_comment z ≡ none) (sym q) n | inr k ↦ h d k ]),
      e,
    )

nothing : check_approval [] ≡ false
unfolding check_approval
nothing = refl

check_newest_first : (l : List IssueComment) → IsNewestFirst l → Decided l (check_approval l)
unfolding Decided IsNewestFirst
check_newest_first [] a = inr ((λ d m. absurd m), nothing)
check_newest_first (c ∷ l) a = elim (Option-cases (decide_comment c)) [
  | inl n ↦
      subst (Decided (c ∷ l)) (sym (decided_later c l n))
        (Decided-cons c l (check_approval l) n (check_newest_first l a.1))
  | inr (b, e) ↦ subst (Decided (c ∷ l)) (sym (decided_here c l b e)) (
      inl (
        c,
        inl refl,
        e,
        λ d m _. elim m [
          | inl q ↦ subst (λ z. z.created_at ≤ c.created_at) (sym q) (omega arith)
          | inr k ↦ All-In (λ x. x.created_at ≤ c.created_at) l a.0 d k
        ],
      ))
]

-- A check finds an approval as the newest comments tell that approve or cancel: it is the decision of a
-- comment that no other of them is newer than, and no if no comment says anything.
pub check_approval-Decided : (l : List IssueComment) → Decided l (check_approval (sort_comments l))
unfolding Decided
check_approval-Decided l =
    elim (check_newest_first (sort_comments l) (sort_comments-IsNewestFirst l)) [
      | inl (c, m, e, h) ↦
          inl (c, (sort_comments-In c l).0 m, e, λ d k s. h d ((sort_comments-In d l).1 k) s)
      | inr (h, e) ↦ inr ((λ d k. h d ((sort_comments-In d l).1 k)), e)
    ]
