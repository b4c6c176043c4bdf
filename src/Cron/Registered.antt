-- ===== src/Cron/Registered.antt =====
-- pkg/cron/cron.go: which jobs are registered after a synchronisation.
use cicd_operator.Base.{
  Bool-cases, Option-cases, ◌==◌, nat_eq, ==_iff, In, Str, str, str_eq, has_prefix, Map, get,
  get-put, ℕ, ◌≡◌, refl, sym, ap, ◌∙◌, ◌≢◌, inl, inr, true, false, Option, none, some, List, [],
  ◌∷◌, ◌++◌, arith,
}
use mathlib.Core.Path.{subst}
use cicd_operator.Api.{Periodic}
use cicd_operator.Structs.Graph.{mem_str}
use cicd_operator.Cron.Stale.{get-remove_job, stale_gone}
use cicd_operator.Cron.Live.{IsLive, sync-IsLive}
use cicd_operator.Cron.Linked.{IsLinked, unique_id, sync-IsLinked}
use cicd_operator.Cron.{
  Added, added, refused, Agent, CronJob, Cron, periodic_names, remove_job, register, add_job,
  unless_error, add_periodic, add_periodics, remove_jobs, stale, remove_stale,
  sync_integration_config,
}

-- A job of the name is there with the cron string.
abbrev Registered : Str → Str → Map Str CronJob → Type 0
Registered name cron jobs = (j : CronJob) × (get name jobs ≡ some j) × (j.cron_str ≡ cron)

-- No two periodic jobs have one name.
unfoldable pub IsDistinct : List Periodic → Type 0
IsDistinct [] = Unit {0}
IsDistinct (p ∷ l) = (mem_str p.job.name (periodic_names l) ≡ false) × IsDistinct l

not_empty : (p : Periodic) → p.cron ≢ [] → (p.cron == []) ≡ false
not_empty p f = elim (Bool-cases (p.cron == [])) [
  | inl t ↦ absurd (f ((==_iff p.cron []).0 t))
  | inr e ↦ e
]

module _ {State : Type 0} (agent : Agent State) where
  register-Registered :
      (name cron : Str) (r : Added) (s : State) (jobs : Map Str CronJob)
      → (register agent name cron r s jobs).0 ≡ none
      → Registered name cron (register agent name cron r s jobs).1.jobs
  unfolding register
  register-Registered name cron (refused text) s jobs e = ground (arith, e)
  register-Registered name cron (added id) s jobs e =
      let j : CronJob = record {
        entry_id = id;
        triggered = has_prefix cron (str "@every");
        cron_str = cron;
      } in
      (j, get-put name name j jobs ∙ rw ((==_iff name name).1 refl) refl, refl)

  register-other :
      (name cron k : Str) (r : Added) (s : State) (jobs : Map Str CronJob)
      → (name == k) ≡ false
      → get k (register agent name cron r s jobs).1.jobs ≡ get k jobs
  unfolding register
  register-other name cron k (refused text) s jobs f = refl
  register-other name cron k (added id) s jobs f =
      get-put name k
        (record { entry_id = id; triggered = has_prefix cron (str "@every"); cron_str = cron }) jobs
      ∙ rw f refl

  unless_error_lem :
      (r : Option Str × Cron State) (next : Cron State → Option Str × Cron State)
      → (unless_error agent r next).0 ≡ none
      → (r.0 ≡ none) × (unless_error agent r next ≡ next r.1)
  unfolding unless_error
  unless_error_lem (some e, c) next h = ground (arith, h)
  unless_error_lem (none, c) next h = (refl, refl)

  add_job-Registered :
      (name cron : Str) (c : Cron State)
      → (add_job agent name cron c).0 ≡ none
      → Registered name cron (add_job agent name cron c).1.jobs
  unfolding add_job
  add_job-Registered name cron c =
      let a = agent.add_func (str "TZ=UTC " ++ cron) name c.cron_agent in
      register-Registered name cron a.0 a.1 c.jobs

  add_job-other :
      (name cron k : Str) (c : Cron State)
      → (name == k) ≡ false
      → get k (add_job agent name cron c).1.jobs ≡ get k c.jobs
  unfolding add_job
  add_job-other name cron k c =
      let a = agent.add_func (str "TZ=UTC " ++ cron) name c.cron_agent in
      register-other name cron k a.0 a.1 c.jobs

  add_periodic-Registered :
      (p : Periodic) (c : Cron State)
      → (p.cron == []) ≡ false
      → (add_periodic agent p c).0 ≡ none
      → Registered p.job.name p.cron (add_periodic agent p c).1.jobs
  unfolding add_periodic
  add_periodic-Registered p c f = elim (Option-cases (get p.job.name c.jobs)) [
    | inl n ↦ rw (f, n) (add_job-Registered p.job.name p.cron c)
    | inr (j, q) ↦ elim (Bool-cases (j.cron_str == p.cron)) [
      | inl t ↦ rw (f, q, t) (λ _. (j, q, (==_iff j.cron_str p.cron).0 t))
      | inr g ↦
          rw (f, q, g)
            (λ h.
              let (_, e) =
                unless_error_lem (remove_job agent p.job.name c) (add_job agent p.job.name p.cron)
                  h in
              subst (λ z. Registered p.job.name p.cron z.1.jobs) (sym e)
                (add_job-Registered p.job.name p.cron (remove_job agent p.job.name c).1
                  (ap (λ z. z.0) (sym e) ∙ h)))
    ]
  ]

  unless_error-other :
      (k : Str) (jobs : Map Str CronJob) (r : Option Str × Cron State)
      (next : Cron State → Option Str × Cron State)
      → get k r.1.jobs ≡ get k jobs
      → ((c : Cron State) → get k c.jobs ≡ get k jobs → get k (next c).1.jobs ≡ get k jobs)
      → get k (unless_error agent r next).1.jobs ≡ get k jobs
  unfolding unless_error
  unless_error-other k jobs (some e, c) next h g = h
  unless_error-other k jobs (none, c) next h g = g c h

  add_periodic-other :
      (p : Periodic) (k : Str) (c : Cron State)
      → (p.job.name == k) ≡ false
      → get k (add_periodic agent p c).1.jobs ≡ get k c.jobs
  unfolding add_periodic
  add_periodic-other p k c f = elim (Bool-cases (p.cron == [])) [
    | inl t ↦ rw t refl
    | inr g ↦ elim (Option-cases (get p.job.name c.jobs)) [
      | inl n ↦ rw (g, n) (add_job-other p.job.name p.cron k c f)
      | inr (j, q) ↦ elim (Bool-cases (j.cron_str == p.cron)) [
        | inl t ↦ rw (g, q, t) refl
        | inr h ↦
            rw (g, q, h)
              (unless_error-other k c.jobs (remove_job agent p.job.name c)
                (add_job agent p.job.name p.cron) (get-remove_job agent p.job.name k c ∙ rw f refl)
                (λ d e. add_job-other p.job.name p.cron k d f ∙ e))
      ]
    ]
  ]

  add_periodics-other :
      (l : List Periodic) (k : Str) (c : Cron State)
      → mem_str k (periodic_names l) ≡ false
      → get k (add_periodics agent l c).1.jobs ≡ get k c.jobs
  unfolding add_periodics periodic_names
  add_periodics-other [] k c h = refl
  add_periodics-other (p ∷ l) k c h =
      unless_error-other k c.jobs (add_periodic agent p c) (add_periodics agent l)
        (add_periodic-other p k c (ground (arith, h)))
        (λ d e. add_periodics-other l k d (ground (arith, h)) ∙ e)

  add_periodics-Registered :
      (l : List Periodic) (c : Cron State)
      → IsDistinct l
      → (add_periodics agent l c).0 ≡ none
      → (p : Periodic) → In p l
      → (p.cron == []) ≡ false
      → Registered p.job.name p.cron (add_periodics agent l c).1.jobs
  unfolding add_periodics IsDistinct
  add_periodics-Registered [] c d h p m f = absurd m
  add_periodics-Registered (q ∷ l) c d h p m f =
      let (first, e) = unless_error_lem (add_periodic agent q c) (add_periodics agent l) h in
      subst (λ z. Registered p.job.name p.cron z.1.jobs) (sym e)
        (elim m [
          | inr k ↦
              add_periodics-Registered l (add_periodic agent q c).1 d.1 (ap (λ z. z.0) (sym e) ∙ h)
                p k f
          | inl same ↦
              let (j, g, r) =
                add_periodic-Registered q c (subst (λ z. (z.cron == []) ≡ false) same f) first in
              subst
                (λ z.
                  Registered z.job.name z.cron
                    (add_periodics agent l (add_periodic agent q c).1).1.jobs)
                (sym same)
                (j, add_periodics-other l q.job.name (add_periodic agent q c).1 d.0 ∙ g, r)
        ])

  remove_stale_lem :
      (l : List Periodic) (r : Option Str × Cron State)
      → (remove_stale agent l r).0 ≡ []
      → (r.0 ≡ none) × (remove_stale agent l r ≡ remove_jobs agent (stale agent l r.1.jobs) r.1)
  unfolding remove_stale
  remove_stale_lem l (some e, c) h = ground (arith, h)
  remove_stale_lem l (none, c) h = (refl, refl)

  In-periodic_names :
      (p : Periodic) (l : List Periodic) → In p l → mem_str p.job.name (periodic_names l) ≡ true
  unfolding periodic_names
  In-periodic_names p [] m = absurd m
  In-periodic_names p (q ∷ l) (inl e) =
      let here : (q.job.name == p.job.name) ≡ true =
        (==_iff q.job.name p.job.name).1 (ap (λ z. z.job.name) (sym e)) in
      ground (arith, here)
  In-periodic_names p (q ∷ l) (inr m) = ground (arith, In-periodic_names p l m)

  sync_jobs :
      (l : List Periodic) (c : Cron State)
      → IsDistinct l
      → (sync_integration_config agent l c).0 ≡ []
      → ((p : Periodic)
          → In p l
          → p.cron ≢ []
          → Registered p.job.name p.cron (sync_integration_config agent l c).1.jobs)
        × ((name : Str)
            → mem_str name (periodic_names l) ≡ false
            → get name (sync_integration_config agent l c).1.jobs ≡ none)
  unfolding sync_integration_config
  sync_jobs l c d h =
      let (ok, e) = remove_stale_lem l (add_periodics agent l c) h in
      (
        (λ p m f.
            let (j, g, r) = add_periodics-Registered l c d ok p m (not_empty p f) in
            let kept =
              ap (λ z. get p.job.name z.1.jobs) e
              ∙ stale_gone agent l p.job.name (add_periodics agent l c).1 in
            (j, kept ∙ rw (In-periodic_names p l m) g, r)),
        λ name f.
            ap (λ z. get name z.1.jobs) e
            ∙ (stale_gone agent l name (add_periodics agent l c).1 ∙ rw f refl),
      )

  -- The cron library has an entry of the name and the cron string, which is the job's, and no other of the name.
  abbrev pub IsScheduled : Str → Str → Cron State → Type 0
  IsScheduled name cron c =
      (j : CronJob) × (get name c.jobs ≡ some j)
      × In (j.entry_id, str "TZ=UTC " ++ cron, name) (agent.entries c.cron_agent)
      × ((e : ℕ × Str × Str)
          → In e (agent.entries c.cron_agent)
          → e.2 ≡ name
          → e ≡ (j.entry_id, str "TZ=UTC " ++ cron, name))

  Registered-IsScheduled :
      (name cron : Str) (c : Cron State)
      → IsLive agent c
      → IsLinked agent c
      → Registered name cron c.jobs
      → IsScheduled name cron c
  Registered-IsScheduled name cron c live (u, linked) (j, g, r) =
      let here : In (j.entry_id, str "TZ=UTC " ++ cron, name) (agent.entries c.cron_agent) =
        subst (λ z. In (j.entry_id, str "TZ=UTC " ++ z, name) (agent.entries c.cron_agent)) r
          (linked name j g) in
      (
        j,
        g,
        here,
        λ e m q.
            let (k, h, i) = live e m in
            let twin : some j ≡ some k = sym g ∙ (ap (λ z. get z c.jobs) (sym q) ∙ h) in
            let same : j ≡ k = ground (arith, twin) in
            unique_id (agent.entries c.cron_agent) e (j.entry_id, str "TZ=UTC " ++ cron, name) u m
              here (sym i ∙ ap (λ z. z.entry_id) (sym same)),
      )

  no_entry :
      (name : Str) (c : Cron State)
      → IsLive agent c
      → get name c.jobs ≡ none
      → (e : ℕ × Str × Str) → In e (agent.entries c.cron_agent)
      → e.2 ≢ name
  no_entry name c live n e m q =
      let (k, h, i) = live e m in
      let clash : none ≡ some k = sym n ∙ (ap (λ z. get z c.jobs) (sym q) ∙ h) in
      ground (arith, clash)

  -- After a synchronisation without errors, with periodic jobs that have different names, the cron library has one entry
  -- for each periodic job that has a cron string, with that string in the time zone UTC, and none of a name that is
  -- no periodic job's; if before each job had its entry with an id of its own, and each entry its job.
  pub sync-Registered :
      (l : List Periodic) (c : Cron State)
      → IsDistinct l
      → IsLive agent c
      → IsLinked agent c
      → (sync_integration_config agent l c).0 ≡ []
      → ((p : Periodic)
          → In p l
          → p.cron ≢ []
          → IsScheduled p.job.name p.cron (sync_integration_config agent l c).1)
        × ((name : Str)
            → mem_str name (periodic_names l) ≡ false
            → (get name (sync_integration_config agent l c).1.jobs ≡ none)
              × ((e : ℕ × Str × Str)
                  → In e (agent.entries (sync_integration_config agent l c).1.cron_agent)
                  → e.2 ≢ name))
  sync-Registered l c d live linked h =
      let after = (sync_integration_config agent l c).1 in
      let (kept, gone) = sync_jobs l c d h in
      (
        (λ p m f.
            Registered-IsScheduled p.job.name p.cron after (sync-IsLive agent l c live)
              (sync-IsLinked agent l c linked) (kept p m f)),
        λ name f. (gone name f, no_entry name after (sync-IsLive agent l c live) (gone name f)),
      )
