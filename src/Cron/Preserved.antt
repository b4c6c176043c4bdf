-- ===== src/Cron/Preserved.antt =====
-- pkg/cron/cron.go: what removing and adding a job keeps, a synchronisation keeps.
use cicd_operator.Base.{
  Bool-cases, Option-cases, ◌==◌, nat_eq, ==_iff, Str, str_eq, get, get-del, ◌≡◌, refl, inl, inr,
  Option, none, some, List, [], ◌∷◌, arith,
}
use cicd_operator.Api.{Periodic}
use cicd_operator.Cron.{
  Agent, CronJob, Cron, remove_job, add_job, unless_error, add_periodic, add_periodics, remove_jobs,
  stale, remove_stale, sync_integration_config,
}

module _ {State : Type 0} (agent : Agent State) (V : Cron State → Type 0)
    (remove-V : (name : Str) (c : Cron State) → V c → V (remove_job agent name c).1)
    (add-V : (name cron : Str) (c : Cron State)
      → get name c.jobs ≡ none
      → V c
      → V (add_job agent name cron c).1) where
  remove_jobs-V : (names : List Str) (c : Cron State) → V c → V (remove_jobs agent names c).1
  unfolding remove_jobs
  remove_jobs-V [] c v = v
  remove_jobs-V (name ∷ names) c v =
      remove_jobs-V names (remove_job agent name c).1 (remove-V name c v)

  not_there :
      (name : Str) (c : Cron State) (j : CronJob)
      → get name c.jobs ≡ some j
      → get name (remove_job agent name c).1.jobs ≡ none
  unfolding remove_job
  not_there name c j q = ground (arith, q, get-del name name c.jobs, (==_iff name name).1 refl)

  then-V :
      (r : Option Str × Cron State) (next : Cron State → Option Str × Cron State)
      → V r.1
      → (V r.1 → V (next r.1).1)
      → V (unless_error agent r next).1
  unfolding unless_error
  then-V (some e, c) next v h = v
  then-V (none, c) next v h = h v

  add_periodic-V : (p : Periodic) (c : Cron State) → V c → V (add_periodic agent p c).1
  unfolding add_periodic
  add_periodic-V p c v = elim (Bool-cases (p.cron == [])) [
    | inl t ↦ rw t v
    | inr f ↦ elim (Option-cases (get p.job.name c.jobs)) [
      | inl n ↦ rw (f, n) (add-V p.job.name p.cron c n v)
      | inr (j, q) ↦ elim (Bool-cases (j.cron_str == p.cron)) [
        | inl t ↦ rw (f, q, t) v
        | inr g ↦
            rw (f, q, g)
              (then-V (remove_job agent p.job.name c) (add_job agent p.job.name p.cron)
                (remove-V p.job.name c v)
                (add-V p.job.name p.cron (remove_job agent p.job.name c).1
                  (not_there p.job.name c j q)))
      ]
    ]
  ]

  add_periodics-V : (l : List Periodic) (c : Cron State) → V c → V (add_periodics agent l c).1
  unfolding add_periodics
  add_periodics-V [] c v = v
  add_periodics-V (p ∷ l) c v =
      then-V (add_periodic agent p c) (add_periodics agent l) (add_periodic-V p c v)
        (add_periodics-V l (add_periodic agent p c).1)

  remove_stale-V :
      (l : List Periodic) (r : Option Str × Cron State) → V r.1 → V (remove_stale agent l r).1
  unfolding remove_stale
  remove_stale-V l (some e, c) v = v
  remove_stale-V l (none, c) v = remove_jobs-V (stale agent l c.jobs) c v

  pub sync-preserves :
      (l : List Periodic) (c : Cron State) → V c → V (sync_integration_config agent l c).1
  unfolding sync_integration_config
  sync-preserves l c v = remove_stale-V l (add_periodics agent l c) (add_periodics-V l c v)
