-- ===== src/Blocker/Checks/Meaning.antt =====
-- pkg/blocker/checks.go: when the conditions hold, said without the code's lists and messages.
use mathlib.Core.Path.{subst}
use cicd_operator.Base.{
  ltb, if◌then◌else◌, Bool-cases, nat_eq, length, filterb, In, Str, str, str_beq_iff, str_eq,
  trim_prefix, ◌≡◌, refl, ◌↔◌, ◌⊎◌, inl, inr, Bool, true, false, not, ◌&&◌, List, [], ◌∷◌, arith,
}
use cicd_operator.Api.{MergeQuery}
use cicd_operator.Git.{status_eq}
use cicd_operator.Blocker.Checks.{
  contains_string, check_branch, check_author, missing_labels, blocking_labels, is_empty,
  check_labels,
}

pub contains_string→In : (a : Str) (l : List Str) → contains_string a l ≡ true → In a l
unfolding contains_string
contains_string→In a [] h = cc
contains_string→In a (x ∷ l) h = ground (arith, str_beq_iff x a, contains_string→In a l)

pub In→contains_string : (a : Str) (l : List Str) → In a l → contains_string a l ≡ true
unfolding contains_string
In→contains_string a [] h = absurd h
In→contains_string a (x ∷ l) (inl e) = ground (arith, str_beq_iff x a)
In→contains_string a (x ∷ l) (inr m) = ground (arith, In→contains_string a l m)

pub contains_string_iff : (a : Str) (l : List Str) → (contains_string a l ≡ true) ↔ In a l
contains_string_iff a l = (contains_string→In a l, In→contains_string a l)

-- A filter keeps nothing exactly when the test fails on every member.
all_refused :
    (p : Str → Bool) (l : List Str)
    → is_empty (filterb p l) ≡ true
    → (x : Str) → In x l
    → p x ≡ false
all_refused p [] h x m = absurd m
all_refused p (y ∷ l) h x (inl e) = rw e (ground (arith, h))
all_refused p (y ∷ l) h x (inr m) = all_refused p l (ground (arith, h)) x m

none_kept :
    (p : Str → Bool) (l : List Str)
    → ((x : Str) → In x l → p x ≡ false)
    → is_empty (filterb p l) ≡ true
none_kept p [] h = refl
none_kept p (y ∷ l) h = rw (h y (inl refl)) (none_kept p l (λ x m. h x (inr m)))

pub filterb_none_iff :
    (p : Str → Bool) (l : List Str)
    → (is_empty (filterb p l) ≡ true) ↔ ((x : Str) → In x l → p x ≡ false)
filterb_none_iff p l = (all_refused p l, none_kept p l)

-- A name is allowed by a list of names that is empty or has it, and by a list of excluded names
-- that has it not.
pub record Allowed (name : Str) (only skip : List Str) : Type 0 where
  pub listed : (only ≡ []) ⊎ In name only
  pub not_skipped : ¬ In name skip

pub test_false : {b : Bool} → ¬ (b ≡ true) → b ≡ false
test_false {b} n = elim (Bool-cases b) [ inl e ↦ absurd (n e) | inr e ↦ e ]

-- The two nested tests of `checkBranch` and `checkAuthor`.
abbrev passes : Str → List Str → List Str → Bool
passes name only skip =
    if contains_string name skip
    then false
    else (if ltb 0 (length only) && not (contains_string name only) then false else true)

passes_iff :
    (name : Str) (only skip : List Str) → (passes name only skip ≡ true) ↔ Allowed name only skip
passes_iff name only skip = (to_allowed only, of_allowed only)
  where
    to_allowed : (only : List Str) → passes name only skip ≡ true → Allowed name only skip
    to_allowed [] h = record {
      listed = inl refl;
      not_skipped = λ m. cc (In→contains_string name skip m, h);
    }
    to_allowed (o ∷ os) h = record {
      listed = inr (contains_string→In name (o ∷ os) (ground (arith, h)));
      not_skipped = λ m. cc (In→contains_string name skip m, h);
    }

    of_allowed : (only : List Str) → Allowed name only skip → passes name only skip ≡ true
    of_allowed [] a = rw (test_false (λ e. a.not_skipped (contains_string→In name skip e))) refl
    of_allowed (o ∷ os) a =
        rw (test_false (λ e. a.not_skipped (contains_string→In name skip e))) (elim (a.listed) [
          | inl e ↦ cc
          | inr m ↦ rw (In→contains_string name (o ∷ os) m) (ground arith)
        ])

pub check_branch_iff :
    (b : Str) (q : MergeQuery)
    → ((check_branch b q).0 ≡ true)
      ↔ Allowed (trim_prefix b (str "refs/heads/")) q.branches q.skip_branches
check_branch_iff b q =
    subst (λ (t : Bool). (t ≡ true) ↔ Allowed branch q.branches q.skip_branches) step
      (passes_iff branch q.branches q.skip_branches)
  where
    branch : Str
    branch = trim_prefix b (str "refs/heads/")

    step : passes branch q.branches q.skip_branches ≡ (check_branch b q).0
    step = unfold check_branch in ground arith

pub check_author_iff :
    (author : Str) (q : MergeQuery)
    → ((check_author author q).0 ≡ true) ↔ Allowed author q.authors q.skip_authors
check_author_iff author q =
    subst (λ (t : Bool). (t ≡ true) ↔ Allowed author q.authors q.skip_authors) step
      (passes_iff author q.authors q.skip_authors)
  where
    step : passes author q.authors q.skip_authors ≡ (check_author author q).0
    step = unfold check_author in ground arith

-- Every wanted label is there, and no refused one.
pub record Labelled (labels wanted refused : List Str) : Type 0 where
  pub has_all : (l : Str) → In l wanted → In l labels
  pub has_none : (l : Str) → In l refused → ¬ In l labels

pub not-false : {b : Bool} → not b ≡ false → b ≡ true
not-false {b} h = ground arith

pub and_true : {a b : Bool} → (a && b) ≡ true → (a ≡ true) × (b ≡ true)
and_true {a} {b} h = ground arith

pub check_labels_iff :
    (labels wanted refused : List Str)
    → ((check_labels labels wanted refused).0 ≡ true) ↔ Labelled labels wanted refused
unfolding check_labels missing_labels blocking_labels
check_labels_iff labels wanted refused = (to_labelled, of_labelled)
  where
    to_labelled :
        (is_empty (missing_labels labels wanted) && is_empty (blocking_labels labels refused))
          ≡ true
        → Labelled labels wanted refused
    to_labelled h = record {
      has_all = λ l m.
          contains_string→In l labels
            (not-false ((filterb_none_iff _ wanted).0 (and_true h).0 l m));
      has_none = λ l m k.
          let no_block : is_empty (blocking_labels labels refused) ≡ true =
            (and_true {a = is_empty (missing_labels labels wanted)} h).1 in
          cc (
            (filterb_none_iff (λ x. contains_string x labels) refused).0 no_block l m,
            In→contains_string l labels k,
          );
    }

    of_labelled :
        Labelled labels wanted refused
        → (is_empty (missing_labels labels wanted) && is_empty (blocking_labels labels refused))
          ≡ true
    of_labelled k =
        rw
          ((filterb_none_iff (λ l. not (contains_string l labels)) wanted).1
            (λ l m. rw (In→contains_string l labels (k.has_all l m))))
          ((filterb_none_iff (λ l. contains_string l labels) refused).1
            (λ l m. test_false (λ e. k.has_none l m (contains_string→In l labels e))))
