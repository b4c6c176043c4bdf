-- ===== src/PeriodicTrigger/Latest.antt =====
-- pkg/periodictrigger/periodic_trigger.go: which job getLatestIntegrationJobsPeriodic finds for a name.
use cicd_operator.Base.{
  Bool-cases, Option-cases, ◌==◌, nat_eq, ==_iff, In, Str, str_eq, Map, get, put, get-put, ℕ, ltb,
  ◌≤◌, ◌<◌, ◌≡◌, refl, sym, ap, ◌∙◌, ◌↔◌, ◌⊎◌, inl, inr, true, false, Option, none, some, List, [],
  ◌∷◌, arith,
}
use mathlib.Core.Path.{subst}
use cicd_operator.Api.{periodic, Job, IntegrationJob}
use cicd_operator.PeriodicTrigger.{
  started_after, is_periodic, job_name, note_latest, latest_from, get_latest,
}

-- A job that a periodic job of the name has made.
abbrev pub IsRunOf : Str → IntegrationJob → Type 0
IsRunOf name ij =
    (ij.spec.config_ref.type ≡ periodic)
    × (j : Job) × (jobs : List Job) × (ij.spec.jobs ≡ j ∷ jobs)
    × (j.name ≡ name)

-- Where both have started, the other has not started later.
abbrev pub NoLater : IntegrationJob → IntegrationJob → Type 0
NoLater old other =
    (s t : ℕ) → old.status.start_time ≡ some s → other.status.start_time ≡ some t → t ≤ s

-- Of those that are a run of the name, none has started later.
abbrev pub IsLast : (IntegrationJob → Type 0) → Str → IntegrationJob → Type 0
IsLast P name old =
    P old
    × IsRunOf name old
    × ((other : IntegrationJob) → P other → IsRunOf name other → NoLater old other)

-- What is known of a name: there is no run of it, or the last one.
abbrev pub Knows : (IntegrationJob → Type 0) → Str → Option IntegrationJob → Type 0
Knows P name none = (ij : IntegrationJob) → P ij → ¬ IsRunOf name ij
Knows P name (some old) = IsLast P name old

abbrev Holds : (IntegrationJob → Type 0) → Map Str IntegrationJob → Type 0
Holds P latest = (name : Str) → Knows P name (get name latest)

Knows-map :
    (P Q : IntegrationJob → Type 0) (name : Str) (o : Option IntegrationJob)
    → ((x : IntegrationJob) → P x ↔ Q x)
    → Knows P name o
    → Knows Q name o
Knows-map P Q name none h k = λ x q. k x ((h x).1 q)
Knows-map P Q name (some old) h (p, r, k) = ((h old).0 p, r, λ x q. k x ((h x).1 q))

-- One more job.
abbrev Also : (IntegrationJob → Type 0) → IntegrationJob → IntegrationJob → Type 0
Also P ij x = P x ⊎ (x ≡ ij)

Knows-other :
    (P : IntegrationJob → Type 0) (ij : IntegrationJob) (name : Str) (o : Option IntegrationJob)
    → ¬ IsRunOf name ij
    → Knows P name o
    → Knows (Also P ij) name o
Knows-other P ij name none n k =
    λ x q r. elim q [ inl p ↦ k x p r | inr e ↦ n (subst (IsRunOf name) e r) ]
Knows-other P ij name (some old) n (p, r, k) =
    (inl p, r, λ x q m. elim q [ inl a ↦ k x a m | inr e ↦ absurd (n (subst (IsRunOf name) e m)) ])

-- A job without another of its name before it.
Knows-first :
    (P : IntegrationJob → Type 0) (ij : IntegrationJob) (name : Str)
    → IsRunOf name ij
    → Knows P name none
    → IsLast (Also P ij) name ij
Knows-first P ij name r k = (
  inr refl,
  r,
  λ x q m. elim q [
    | inl p ↦ absurd (k x p m)
    | inr e ↦ λ s t a b.
        let same : some s ≡ some t = sym a ∙ (ap (λ z. z.status.start_time) (sym e) ∙ b) in
        ground (arith, same)
  ],
)

module _ (P : IntegrationJob → Type 0) (ij old : IntegrationJob) (name : Str) (s t : ℕ)
    (started : ij.status.start_time ≡ some s) (before : old.status.start_time ≡ some t) where
  Knows-later : IsRunOf name ij → t < s → IsLast P name old → IsLast (Also P ij) name ij
  Knows-later r h (p, m, k) = (
    inr refl,
    r,
    λ x q n. elim q [
      | inl a ↦ λ u v e f.
          let g = k x a n t v before f in
          let same : some s ≡ some u = sym started ∙ e in ground (arith, same, g, h)
      | inr e ↦ λ u v a b.
          let same : some u ≡ some v = sym a ∙ (ap (λ z. z.status.start_time) (sym e) ∙ b) in
          ground (arith, same)
    ],
  )

  Knows-earlier : s ≤ t → IsLast P name old → IsLast (Also P ij) name old
  Knows-earlier h (p, m, k) = (
    inl p,
    m,
    λ x q n. elim q [
      | inl a ↦ k x a n
      | inr e ↦ λ u v a b.
          let old_time : some t ≡ some u = sym before ∙ a in
          let new_time : some s ≡ some v =
            sym started ∙ (ap (λ z. z.status.start_time) (sym e) ∙ b) in
          ground (arith, old_time, new_time, h)
    ],
  )

job_name_lem :
    (ij : IntegrationJob) (name : Str)
    → job_name ij ≡ some name
    → (j : Job) × (jobs : List Job) × (ij.spec.jobs ≡ j ∷ jobs) × (j.name ≡ name)
unfolding job_name
job_name_lem ij name e = by_jobs ij.spec.jobs refl
  where
    by_jobs :
        (l : List Job)
        → ij.spec.jobs ≡ l
        → (j : Job) × (jobs : List Job) × (ij.spec.jobs ≡ j ∷ jobs) × (j.name ≡ name)
    by_jobs [] q = ground (arith, q, e)
    by_jobs (j ∷ jobs) q = (j, jobs, q, ground (arith, q, e))

-- A job is a run of the one name that it is looked up under.
IsRunOf-name :
    (ij : IntegrationJob) (name other : Str)
    → job_name ij ≡ some name
    → IsRunOf other ij
    → name ≡ other
unfolding job_name
IsRunOf-name ij name other e (p, j, jobs, q, r) = ground (arith, e, q, r)

is_periodic_iff :
    (ij : IntegrationJob)
    → (is_periodic ij.spec.config_ref.type ≡ true) ↔ (ij.spec.config_ref.type ≡ periodic)
unfolding is_periodic
is_periodic_iff ij = ground arith

-- What the job is noted as: the first, the last, or not at all.
abbrev Noted : IntegrationJob → Map Str IntegrationJob → Map Str IntegrationJob → Str → Type 0
Noted ij latest m name =
    ((get name latest ≡ none) × (m ≡ put name ij latest))
    ⊎ (old : IntegrationJob) × (s t : ℕ) × (get name latest ≡ some old)
      × (ij.status.start_time ≡ some s)
      × (old.status.start_time ≡ some t)
      × (((t < s) × (m ≡ put name ij latest)) ⊎ ((s ≤ t) × (m ≡ latest)))

note_latest-Noted :
    (ij : IntegrationJob) (latest m : Map Str IntegrationJob)
    → note_latest ij latest ≡ some m
    → (name : Str) × (job_name ij ≡ some name) × Noted ij latest m name
unfolding note_latest started_after
note_latest-Noted ij latest m e = elim (Option-cases (job_name ij)) [
  | inl n ↦ ground (arith, n, e)
  | inr (name, q) ↦ elim (Option-cases (get name latest)) [
    | inl n ↦ (name, q, inl (n, ground (arith, q, n, e)))
    | inr (old, g) ↦ elim (Option-cases ij.status.start_time) [
      | inl n ↦ ground (arith, q, g, n, e)
      | inr (s, a) ↦ elim (Option-cases old.status.start_time) [
        | inl n ↦ ground (arith, q, g, a, n, e)
        | inr (t, b) ↦ elim (Bool-cases (ltb t s)) [
          | inl y ↦ (
            name,
            q,
            inr (old, s, t, g, a, b, inl (ground (arith, y), ground (arith, q, g, a, b, y, e))),
          )
          | inr n ↦ (
            name,
            q,
            inr (old, s, t, g, a, b, inr (ground (arith, n), ground (arith, q, g, a, b, n, e))),
          )
        ]
      ]
    ]
  ]
]

module _ (P : IntegrationJob → Type 0) (ij : IntegrationJob) (latest m : Map Str IntegrationJob)
    (name : Str) (run : IsRunOf name ij) where
  put_name : m ≡ put name ij latest → get name m ≡ some ij
  put_name e =
      ap (get name) e ∙ (get-put name name ij latest ∙ ground (arith, (==_iff name name).1 refl))

  Noted-Knows :
      Noted ij latest m name → Knows P name (get name latest) → Knows (Also P ij) name (get name m)
  Noted-Knows (inl (n, e)) k =
      subst (Knows (Also P ij) name) (sym (put_name e))
        (Knows-first P ij name run (subst (Knows P name) n k))
  Noted-Knows (inr (old, s, t, g, a, b, inl (h, e))) k =
      subst (Knows (Also P ij) name) (sym (put_name e))
        (Knows-later P ij old name s t a b run h (subst (Knows P name) g k))
  Noted-Knows (inr (old, s, t, g, a, b, inr (h, e))) k =
      subst (Knows (Also P ij) name) (sym (ap (get name) e ∙ g))
        (Knows-earlier P ij old name s t a b h (subst (Knows P name) g k))

  put_other : (k : Str) → (name == k) ≡ false → m ≡ put name ij latest → get k m ≡ get k latest
  put_other k f e = ap (get k) e ∙ (get-put name k ij latest ∙ ground (arith, f))

  Noted-other : (k : Str) → (name == k) ≡ false → Noted ij latest m name → get k m ≡ get k latest
  Noted-other k f (inl (n, e)) = put_other k f e
  Noted-other k f (inr (old, s, t, g, a, b, inl (h, e))) = put_other k f e
  Noted-other k f (inr (old, s, t, g, a, b, inr (h, e))) = ap (get k) e

note_latest-Holds :
    (P : IntegrationJob → Type 0) (ij : IntegrationJob) (latest m : Map Str IntegrationJob)
    → ij.spec.config_ref.type ≡ periodic
    → note_latest ij latest ≡ some m
    → Holds P latest
    → Holds (Also P ij) m
note_latest-Holds P ij latest m p e h k =
    let (name, q, noted) = note_latest-Noted ij latest m e in
    let (first, rest, jobs, called) = job_name_lem ij name q in
    let run : IsRunOf name ij = (p, first, rest, jobs, called) in
    elim (Bool-cases (name == k)) [
      | inl t ↦
          subst (λ z. Knows (Also P ij) z (get z m)) ((==_iff name k).0 t)
            (Noted-Knows P ij latest m name run noted (h name))
      | inr f ↦ subst (Knows (Also P ij) k) (sym (Noted-other P ij latest m name run k f noted)) (
          Knows-other P ij k (get k latest)
            (λ r. ground (arith, f, (==_iff name k).1 (IsRunOf-name ij name k q r))) (h k))
    ]

latest_from-Holds :
    (l : List IntegrationJob) (P : IntegrationJob → Type 0) (latest out : Map Str IntegrationJob)
    → latest_from l latest ≡ some out
    → Holds P latest
    → Holds (λ x. P x ⊎ In x l) out
unfolding latest_from
latest_from-Holds [] P latest out e h k =
    Knows-map P (λ x. P x ⊎ ⊥) k (get k out)
      (λ x. (inl, (λ q. elim q [ inl p ↦ p | inr a ↦ absurd a ])))
      (subst (λ z. Knows P k (get k z)) (ground (arith, e)) (h k))
latest_from-Holds (ij ∷ l) P latest out e h k =
    Knows-map (λ x. Also P ij x ⊎ In x l) (λ x. P x ⊎ In x (ij ∷ l)) k (get k out)
      (λ x. (
        (λ q. elim q [ inl (inl p) ↦ inl p | inl (inr s) ↦ inr (inl s) | inr n ↦ inr (inr n) ]),
        (λ q. elim q [ inl p ↦ inl (inl p) | inr (inl s) ↦ inl (inr s) | inr (inr n) ↦ inr n ]),
      ))
      (elim (Bool-cases (is_periodic ij.spec.config_ref.type)) [
        | inl y ↦ elim (Option-cases (note_latest ij latest)) [
          | inl n ↦ ground (arith, y, n, e)
          | inr (m, q) ↦
              latest_from-Holds l (Also P ij) m out (ground (arith, y, q, e))
                (note_latest-Holds P ij latest m ((is_periodic_iff ij).0 y) q h) k
        ]
        | inr n ↦
            latest_from-Holds l (Also P ij) latest out (ground (arith, n, e))
              (λ name.
                Knows-other P ij name (get name latest)
                  (λ r. ground (arith, n, (is_periodic_iff ij).1 r.0)) (h name))
              k
      ])

-- The job found for a name is the last run of it among all jobs; where none is found there is no run.
pub get_latest-Knows :
    (ijs : List IntegrationJob) (latest : Map Str IntegrationJob)
    → get_latest ijs ≡ some latest
    → (name : Str) → Knows (λ x. In x ijs) name (get name latest)
unfolding get_latest get
get_latest-Knows ijs latest e name =
    Knows-map (λ x. ⊥ ⊎ In x ijs) (λ x. In x ijs) name (get name latest)
      (λ x. ((λ q. elim q [ inl a ↦ absurd a | inr m ↦ m ]), inr))
      (latest_from-Holds ijs (λ x. ⊥) [] latest e (λ k x a. absurd a) name)
