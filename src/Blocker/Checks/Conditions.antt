-- ===== src/Blocker/Checks/Conditions.antt =====
-- pkg/blocker/checks.go: the conditions for the merge pool, and for the merge itself.
use mathlib.Core.Path.{subst}
use cicd_operator.Base.{
  Bool-cases, nat_eq, In, Str, str, str_beq, str_eq, trim_prefix, Map, ◌≡◌, refl, sym, ◌≢◌, ◌↔◌,
  ◌⊎◌, inl, inr, true, List, [], ◌∷◌, ◌++◌, arith,
}
use cicd_operator.Api.{MergeQuery}
use cicd_operator.Git.{PullRequest, status_eq, CommitStatus}
use cicd_operator.Blocker.Checks.{
  check_branch, check_author, check_labels, check_checks, wanted_labels, refused_labels,
  check_conditions_simple, check_conditions_full,
}
use cicd_operator.Blocker.Checks.Statuses.{Succeeded, check_checks_iff}
use cicd_operator.Blocker.Checks.Meaning.{
  Allowed, Labelled, check_branch_iff, check_author_iff, check_labels_iff, test_false,
}

-- The conditions of the merge query, with the global block label: labels, approval, author and branch.
pub record Meets (block_label : Str) (q : MergeQuery) (pr : PullRequest) : Type 0 where
  pub required : (l : Str) → In l q.labels → In l pr.labels
  pub approved : q.approve_required ≡ true → In (str "approved") pr.labels
  pub unblocked : (l : Str) → In l q.block_labels → ¬ In l pr.labels
  pub not_held : block_label ≢ [] → ¬ In block_label pr.labels
  pub author : Allowed pr.author.name q.authors q.skip_authors
  pub branch : Allowed (trim_prefix pr.base.ref (str "refs/heads/")) q.branches q.skip_branches

In-snoc : (a x : Str) (l : List Str) → In a (l ++ x ∷ []) ↔ In a l ⊎ (a ≡ x)
In-snoc a x [] =
    (elim [ inl e ↦ inr e | inr h ↦ absurd h ], elim [ inl h ↦ absurd h | inr e ↦ inl e ])
In-snoc a x (y ∷ l) = go (In-snoc a x l)
  where
    go : In a (l ++ x ∷ []) ↔ In a l ⊎ (a ≡ x) → In a (y ∷ (l ++ x ∷ [])) ↔ In a (y ∷ l) ⊎ (a ≡ x)
    go ih = (
      elim [ inl e ↦ inl (inl e) | inr h ↦ elim (ih.0 h) [ inl k ↦ inl (inr k) | inr e ↦ inr e ] ],
      elim [
        | inl k ↦ elim k [ inl e ↦ inl e | inr h ↦ inr (ih.1 (inl h)) ]
        | inr e ↦ inr (ih.1 (inr e))
      ],
    )

In-wanted :
    (q : MergeQuery) (l : Str)
    → In l (wanted_labels q) ↔ In l q.labels ⊎ ((q.approve_required ≡ true) × (l ≡ str "approved"))
unfolding wanted_labels
In-wanted q l = elim (Bool-cases q.approve_required) [
  | inl y ↦ rw y (
    (λ h. elim ((In-snoc l (str "approved") q.labels).0 h) [
      | inl k ↦ inl k
      | inr e ↦ inr (refl, e)
    ]),
    elim [
      | inl k ↦ (In-snoc l (str "approved") q.labels).1 (inl k)
      | inr e ↦ (In-snoc l (str "approved") q.labels).1 (inr (e.1))
    ],
  )
  | inr n ↦ rw n ((λ h. inl h), elim [ inl k ↦ k | inr e ↦ cc (e.0) ])
]

In-refused :
    (block_label : Str) (q : MergeQuery) (l : Str)
    → In l (refused_labels block_label q)
      ↔ In l q.block_labels ⊎ ((block_label ≢ []) × (l ≡ block_label))
unfolding refused_labels str_beq
In-refused [] q l = ((λ h. inl h), elim [ inl k ↦ k | inr e ↦ absurd (e.0 refl) ])
In-refused (c ∷ cs) q l = (
  (λ h. elim ((In-snoc l (c ∷ cs) q.block_labels).0 h) [
    | inl k ↦ inl k
    | inr e ↦ inr ((λ p. cc), e)
  ]),
  elim [
    | inl k ↦ (In-snoc l (c ∷ cs) q.block_labels).1 (inl k)
    | inr e ↦ (In-snoc l (c ∷ cs) q.block_labels).1 (inr (e.1))
  ],
)

module _ (block_label : Str) (q : MergeQuery) (pr : PullRequest) where
  abbrev FitsLabels : Type 0
  FitsLabels = Labelled pr.labels (wanted_labels q) (refused_labels block_label q)

  Meets-Labelled : Meets block_label q pr → FitsLabels
  Meets-Labelled m = record {
    has_all = λ l h. elim ((In-wanted q l).0 h) [
      | inl k ↦ m.required l k
      | inr e ↦ subst (λ x. In x pr.labels) (sym (e.1)) (m.approved (e.0))
    ];
    has_none = λ l h. elim ((In-refused block_label q l).0 h) [
      | inl k ↦ m.unblocked l k
      | inr e ↦ (λ n. m.not_held (e.0) (subst (λ x. In x pr.labels) (e.1) n))
    ];
  }

  Labelled-Meets :
      FitsLabels
      → Allowed pr.author.name q.authors q.skip_authors
      → Allowed (trim_prefix pr.base.ref (str "refs/heads/")) q.branches q.skip_branches
      → Meets block_label q pr
  Labelled-Meets f a b = record {
    required = λ l k. f.has_all l ((In-wanted q l).1 (inl k));
    approved = λ y. f.has_all (str "approved") ((In-wanted q (str "approved")).1 (inr (y, refl)));
    unblocked = λ l k. f.has_none l ((In-refused block_label q l).1 (inl k));
    not_held =
        λ n. f.has_none block_label ((In-refused block_label q block_label).1 (inr (n, refl)));
    author = a;
    branch = b;
  }

  -- A pull request passes the simple check exactly when it meets the merge query.
  pub check_conditions_simple_iff :
      ((check_conditions_simple block_label q pr).0 ≡ true) ↔ Meets block_label q pr
  unfolding check_conditions_simple
  check_conditions_simple_iff = (
    (λ h.
        let l : (check_labels pr.labels (wanted_labels q) (refused_labels block_label q)).0 ≡ true =
          ground (arith, h) in
        let a : (check_author pr.author.name q).0 ≡ true = ground (arith, h) in
        let b : (check_branch pr.base.ref q).0 ≡ true = ground (arith, h) in
        Labelled-Meets
          ((check_labels_iff pr.labels (wanted_labels q) (refused_labels block_label q)).0 l)
          ((check_author_iff pr.author.name q).0 a) ((check_branch_iff pr.base.ref q).0 b)),
    λ m.
        let l =
          (check_labels_iff pr.labels (wanted_labels q) (refused_labels block_label q)).1
            (Meets-Labelled m) in
        let a = (check_author_iff pr.author.name q).1 m.author in
        let b = (check_branch_iff pr.base.ref q).1 m.branch in ground (arith, l, a, b),
  )

  -- The full check says to merge exactly when the query is met, there is no conflict and the checks have
  -- succeeded; it says to leave the merge pool exactly when the query is not met.
  pub check_conditions_full_iff :
      (statuses : Map Str CommitStatus)
      → (((check_conditions_full block_label q pr statuses).0 ≡ true)
          ↔ (Meets block_label q pr × (pr.mergeable ≡ true) × Succeeded statuses q))
        × (((check_conditions_full block_label q pr statuses).1 ≡ true)
            ↔ (¬ Meets block_label q pr))
  unfolding check_conditions_full
  check_conditions_full_iff statuses = (
    (
      (λ h.
          let a : (check_conditions_simple block_label q pr).0 ≡ true = ground (arith, h) in
          let b : (check_checks statuses q).0 ≡ true = ground (arith, h) in
          (simple.0 a, ground (arith, h), (check_checks_iff statuses q).0 b)),
      λ m.
          let a = simple.1 (m.0) in
          let b = (check_checks_iff statuses q).1 (m.2) in ground (arith, a, b, m.1),
    ),
    (
      (λ h m. let a = simple.1 m in ground (arith, a, h)),
      λ n. let a = test_false (λ e. n (simple.0 e)) in ground (arith, a),
    ),
  )
    where
      simple : ((check_conditions_simple block_label q pr).0 ≡ true) ↔ Meets block_label q pr
      simple = check_conditions_simple_iff
