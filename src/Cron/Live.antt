-- ===== src/Cron/Live.antt =====
-- pkg/cron/cron.go: the entries of the cron library and the jobs they were made for.
use cicd_operator.Base.{
  Bool-cases, Option-cases, ◌==◌, nat_eq, ==_iff, In-filterb_iff, In, Str, str, str_eq, has_prefix,
  Map, get, put, del, get-put, get-del, ℕ, ◌≡◌, refl, sym, ap, ◌∙◌, inl, inr, true, false, not,
  Option, none, some, List, [], ◌∷◌, ◌++◌, arith,
}
use mathlib.Core.Path.{subst}
use cicd_operator.Api.{Periodic}
use cicd_operator.Cron.Preserved.{sync-preserves}
use cicd_operator.Cron.{
  Added, added, refused, Agent, CronJob, Cron, queued_jobs, reset, fire, remove_job, register,
  add_job, sync_integration_config, triggered_in,
}

triggered_lem :
    (name : Str) (j : CronJob)
    → j.triggered ≡ true
    → (m : Map Str CronJob) → In name (triggered_in (put name j m))
unfolding triggered_in put
triggered_lem name j t [] = ground (arith, t)
triggered_lem name j t ((k, i) ∷ m) = elim (Bool-cases (k == name)) [
  | inl e ↦ rw (e, t) (inl refl)
  | inr f ↦ rw f (elim (Bool-cases i.triggered) [
    | inl a ↦ rw a (inr (triggered_lem name j t m))
    | inr b ↦ rw b (triggered_lem name j t m)
  ])
]

reset_lem : (m : Map Str CronJob) → triggered_in (reset m) ≡ []
unfolding triggered_in reset
reset_lem [] = refl
reset_lem ((k, j) ∷ m) = reset_lem m

module _ {State : Type 0} (agent : Agent State) where
  some_inj : {A : Type 0} {a b : A} → some a ≡ some b → a ≡ b
  some_inj e = ground (arith, e)

  none≢some : {A : Type 0} {a : A} → Option.none ≡ some a → ⊥
  none≢some e = ground (arith, e)

  -- A job of the entry's name has the entry's id.
  abbrev Owned : Map Str CronJob → ℕ × Str × Str → Type 0
  Owned jobs e = (j : CronJob) × (get e.2 jobs ≡ some j) × (j.entry_id ≡ e.0)

  -- The job of each entry is there, and is the one that the entry was made for.
  abbrev pub IsLive : Cron State → Type 0
  IsLive c = (e : ℕ × Str × Str) → In e (agent.entries c.cron_agent) → Owned c.jobs e

  absent : (name : Str) (c : Cron State) → get name c.jobs ≡ none → (remove_job agent name c).1 ≡ c
  unfolding remove_job
  absent name c n = ground (arith, n)

  abbrev removed : Str → CronJob → Cron State → Cron State
  removed name j c = record {
    cron_agent = agent.remove j.entry_id c.cron_agent;
    jobs = del name c.jobs;
  }

  pub present :
      (name : Str) (c : Cron State) (j : CronJob)
      → get name c.jobs ≡ some j
      → remove_job agent name c ≡ (none, removed name j c)
  unfolding remove_job
  present name c j q = ground (arith, q)

  removed-IsLive :
      (name : Str) (c : Cron State) (j : CronJob)
      → get name c.jobs ≡ some j
      → IsLive c
      → IsLive (removed name j c)
  removed-IsLive name c j q v e m =
      let kept =
        (In-filterb_iff (λ (x : ℕ × Str × Str). not (x.0 == j.entry_id)) e
            (agent.entries c.cron_agent)).0
          (subst (In e) (agent.entries-remove j.entry_id c.cron_agent) m) in
      let (k, r, i) = v e kept.0 in
      let other : (name == e.2) ≡ false = elim (Bool-cases (name == e.2)) [
        | inr f ↦ f
        | inl t ↦
            let same : name ≡ e.2 = (==_iff name e.2).0 t in
            let twin : j ≡ k = some_inj (sym q ∙ (ap (λ z. get z c.jobs) same ∙ r)) in
            let clash : (e.0 == j.entry_id) ≡ true =
              (==_iff e.0 j.entry_id).1 (sym i ∙ ap (λ z. z.entry_id) (sym twin)) in
            ground (arith, clash, kept.1)
      ] in
      (k, get-del name e.2 c.jobs ∙ rw other r, i)

  remove_job-IsLive : (name : Str) (c : Cron State) → IsLive c → IsLive (remove_job agent name c).1
  remove_job-IsLive name c v = elim (Option-cases (get name c.jobs)) [
    | inl n ↦ subst IsLive (sym (absent name c n)) v
    | inr (j, q) ↦
        subst IsLive (ap (λ r. r.1) (sym (present name c j q))) (removed-IsLive name c j q v)
  ]

  -- An entry of another job keeps its job when one is put under a name that has no entry.
  put-IsLive :
      (name spec : Str) (j : CronJob) (c : Cron State) (s : State)
      → get name c.jobs ≡ none
      → agent.entries s ≡ (j.entry_id, spec, name) ∷ agent.entries c.cron_agent
      → IsLive c
      → IsLive (record { cron_agent = s; jobs = put name j c.jobs })
  put-IsLive name spec j c s n e v x m = elim (subst (In x) e m) [
    | inl q ↦
        let here : (name == x.2) ≡ true = (==_iff name x.2).1 (ap (λ z. z.2) (sym q)) in
        (j, get-put name x.2 j c.jobs ∙ rw here refl, ap (λ z. z.0) (sym q))
    | inr k ↦
        let (i, r, h) = v x k in
        let other : (name == x.2) ≡ false = elim (Bool-cases (name == x.2)) [
          | inr f ↦ f
          | inl t ↦
              absurd (none≢some (sym n ∙ (ap (λ z. get z c.jobs) ((==_iff name x.2).0 t) ∙ r)))
        ] in
        (i, get-put name x.2 j c.jobs ∙ rw other r, h)
  ]

  add_job-IsLive :
      (name cron : Str) (c : Cron State)
      → get name c.jobs ≡ none
      → IsLive c
      → IsLive (add_job agent name cron c).1
  unfolding add_job register
  add_job-IsLive name cron c n v =
      registered ((agent.add_func (str "TZ=UTC " ++ cron) name c.cron_agent).0) refl
    where
      registered :
          (r : Added)
          → (agent.add_func (str "TZ=UTC " ++ cron) name c.cron_agent).0 ≡ r
          → IsLive
              (register agent name cron r
                (agent.add_func (str "TZ=UTC " ++ cron) name c.cron_agent).1
                c.jobs).1
      registered (refused text) e = λ x m.
          v x (
            subst (In x) (agent.entries-refused (str "TZ=UTC " ++ cron) name c.cron_agent text e) m)
      registered (added id) e =
          put-IsLive name (str "TZ=UTC " ++ cron)
            (record { entry_id = id; triggered = has_prefix cron (str "@every"); cron_str = cron })
            c (agent.add_func (str "TZ=UTC " ++ cron) name c.cron_agent).1 n
            (agent.entries-added (str "TZ=UTC " ++ cron) name c.cron_agent id e).0 v

  -- A synchronisation with any periodic jobs, also one that ends with errors, leaves each entry of the cron
  -- library with its job, if it was so before.
  pub sync-IsLive :
      (l : List Periodic) (c : Cron State) → IsLive c → IsLive (sync_integration_config agent l c).1
  sync-IsLive = sync-preserves agent IsLive remove_job-IsLive add_job-IsLive

  -- Where each entry has its job, the function of an entry does not panic, and the job is among the
  -- next queued jobs, which are then queued no more.
  fire-queues :
      (c : Cron State) (id : ℕ) (spec name : Str)
      → IsLive c
      → In (id, spec, name) (agent.entries c.cron_agent)
      → (c' : Cron State) × (fire agent name c ≡ some c')
        × In name (queued_jobs agent c').0
        × ((queued_jobs agent (queued_jobs agent c').1).0 ≡ [])
  unfolding fire queued_jobs
  fire-queues c id spec name v m =
      let (j, q, _) = v (id, spec, name) m in
      let marked = record j { triggered = true } in
      (
        record c { jobs = put name marked c.jobs },
        ground (arith, q),
        triggered_lem name marked refl c.jobs,
        reset_lem (put name marked c.jobs),
      )
