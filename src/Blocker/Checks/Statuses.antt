-- ===== src/Blocker/Checks/Statuses.antt =====
-- pkg/blocker/checks.go: when the commit statuses let a pull request be merged.
use mathlib.Core.Path.{subst}
use mathlib.Core.Bool.{false≢true}
use cicd_operator.Base.{
  ltb, if◌then◌else◌, lt→ltb, Bool-cases, Option-cases, ◌==◌, nat_eq, length, In, Str, str_beq_iff,
  str_eq, Map, get, suc, ◌≡◌, refl, sym, ◌∙◌, ◌≢◌, ◌↔◌, inl, inr, true, false, some, List, [], ◌∷◌,
  arith,
}
use cicd_operator.Api.{MergeQuery}
use cicd_operator.Git.{success, status_eq, status_beq_iff, CommitStatus}
use cicd_operator.Blocker.Checks.{
  blocker_context, check_unmet, required_unmet, others_unmet, unmet_checks, contains_string,
  is_empty, check_checks,
}
use cicd_operator.Blocker.Checks.Meaning.{
  filterb_none_iff, contains_string→In, In→contains_string, test_false, not-false,
}

-- The commit statuses that the query asks for: the listed checks, or all but the blocker's own and the
-- optional ones if none is listed.
pub record Succeeded (statuses : Map Str CommitStatus) (q : MergeQuery) : Type 0 where
  pub listed :
      (c : Str)
      → In c q.checks
      → (s : CommitStatus) × (get c statuses ≡ some s) × (s.state ≡ success)
  pub others :
      q.checks ≡ []
      → (c : Str) (s : CommitStatus) → In (c, s) statuses
      → c ≢ blocker_context
      → ¬ In c q.optional_checks
      → s.state ≡ success

check_met :
    (statuses : Map Str CommitStatus) (c : Str)
    → check_unmet statuses c ≡ false
    → (s : CommitStatus) × (get c statuses ≡ some s) × (s.state ≡ success)
unfolding check_unmet
check_met statuses c h = elim (Option-cases (get c statuses)) [
  | inl e ↦ cc (rw (e, check_unmet) at h)
  | inr (s, e) ↦ (s, e, (status_beq_iff s.state success).0 (not-false (rw (e, check_unmet) at h)))
]

met_check :
    (statuses : Map Str CommitStatus) (c : Str) (s : CommitStatus)
    → get c statuses ≡ some s
    → s.state ≡ success
    → check_unmet statuses c ≡ false
unfolding check_unmet
met_check statuses c s e k = ground (arith, status_beq_iff s.state success, e, k)

others_met :
    (statuses : Map Str CommitStatus) (optional : List Str)
    → is_empty (others_unmet statuses optional) ≡ true
    → (c : Str) (s : CommitStatus) → In (c, s) statuses
    → c ≢ blocker_context
    → ¬ In c optional
    → s.state ≡ success
unfolding others_unmet
others_met [] optional h c s m n o = absurd m
others_met ((d, t) ∷ statuses) optional h c s (inl e) n o = ground (
  arith,
  e,
  h,
  str_beq_iff d blocker_context,
  status_beq_iff t.state success,
  test_false (λ k. o (contains_string→In c optional k)),
  n,
)
others_met ((d, t) ∷ statuses) optional h c s (inr m) n o =
    others_met statuses optional (ground (arith, h)) c s m n o

met_others :
    (statuses : Map Str CommitStatus) (optional : List Str)
    → ((c : Str) (s : CommitStatus)
        → In (c, s) statuses
        → c ≢ blocker_context
        → ¬ In c optional
        → s.state ≡ success)
    → is_empty (others_unmet statuses optional) ≡ true
unfolding others_unmet
met_others [] optional h = refl
met_others ((d, t) ∷ statuses) optional h =
    let rest = met_others statuses optional (λ c s m. h c s (inr m)) in
    elim (Bool-cases (d == blocker_context)) [
      | inl own ↦ rw own rest
      | inr n ↦ elim (Bool-cases (contains_string d optional)) [
        | inl o ↦ rw (n, o) (ground (arith, rest))
        | inr o ↦
            rw
              (
                n,
                o,
                (status_beq_iff t.state success).1 (h d t (inl refl) (not_own n) (not_optional o)),
              )
              rest
      ]
    ]
  where
    not_own : (d == blocker_context) ≡ false → d ≢ blocker_context
    not_own n e = false≢true (sym n ∙ (str_beq_iff d blocker_context).1 e)

    not_optional : contains_string d optional ≡ false → ¬ In d optional
    not_optional o m = false≢true (sym o ∙ In→contains_string d optional m)

unmet-Succeeded :
    (statuses : Map Str CommitStatus) (q : MergeQuery) (checks : List Str)
    → q.checks ≡ checks
    → is_empty (
        if ltb 0 (length checks)
        then required_unmet statuses checks
        else others_unmet statuses q.optional_checks)
      ≡ true
    → Succeeded statuses q
unfolding required_unmet
unmet-Succeeded statuses q [] e h = record {
  listed = λ c m. absurd (subst (In c) e m);
  others = λ p c s m n o. others_met statuses q.optional_checks h c s m n o;
}
unmet-Succeeded statuses q (x ∷ xs) e h = record {
  listed = λ c m. check_met statuses c (
      (filterb_none_iff (check_unmet statuses) (x ∷ xs)).0
        (rw (lt→ltb 0 (suc (length xs)) (omega arith)) at h) c (subst (In c) e m));
  others = λ p. cc (e, p);
}

Succeeded-unmet :
    (statuses : Map Str CommitStatus) (q : MergeQuery) (checks : List Str)
    → q.checks ≡ checks
    → Succeeded statuses q
    → is_empty (
        if ltb 0 (length checks)
        then required_unmet statuses checks
        else others_unmet statuses q.optional_checks)
      ≡ true
unfolding required_unmet
Succeeded-unmet statuses q [] e k =
    met_others statuses q.optional_checks (λ c s m n o. k.others e c s m n o)
Succeeded-unmet statuses q (x ∷ xs) e k = rw (lt→ltb 0 (suc (length xs)) (omega arith)) (
    (filterb_none_iff (check_unmet statuses) (x ∷ xs)).1
      (λ c m. let (s, g, t) = k.listed c (subst (In c) (sym e) m) in met_check statuses c s g t))

-- The statuses pass exactly when every check that counts has succeeded.
pub check_checks_iff :
    (statuses : Map Str CommitStatus) (q : MergeQuery)
    → ((check_checks statuses q).0 ≡ true) ↔ Succeeded statuses q
check_checks_iff statuses q = (
  (λ h.
      unmet-Succeeded statuses q q.checks refl
        (unfold check_checks unmet_checks in ground (arith, h))),
  λ k.
      let e = Succeeded-unmet statuses q q.checks refl k in
      unfold check_checks unmet_checks in ground (arith, e),
)
