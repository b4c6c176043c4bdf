-- ===== src/PeriodicTrigger/Created.antt =====
-- pkg/periodictrigger/periodic_trigger.go: which jobs a tick creates.
use cicd_operator.Base.{nat_eq, In, Str, str_eq, Map, ℕ, ◌≡◌, ◌≢◌, ◌⊎◌, true, some, List, [], ◌∷◌}
use cicd_operator.Api.{Periodic, IntegrationJob}
use cicd_operator.Cron.{Cron, CronJob}
use cicd_operator.PeriodicTrigger.Latest.{IsRunOf, IsLast}

-- The cron has the job, and it is to be triggered.
abbrev pub IsQueued : Str → Map Str CronJob → Type 0
IsQueued name jobs = (j : CronJob) × In (name, j) jobs × (j.triggered ≡ true)

-- No job is a run of the name, or one that no other has started later than has completed.
abbrev pub IsFree : List IntegrationJob → Str → Type 0
IsFree ijs name =
    ((ij : IntegrationJob) → In ij ijs → ¬ IsRunOf name ij)
    ⊎ (old : IntegrationJob) × IsLast (λ ij. In ij ijs) name old
      × (t : ℕ) × (old.status.completion_time ≡ some t)

-- A job that runs one of the periodic jobs, which was triggered and is free.
abbrev pub Due : List IntegrationJob → Map Str CronJob → List Periodic → IntegrationJob → Type 0
Due ijs jobs periodics ij =
    (p : Periodic) × In p periodics
    × (ij.spec.jobs ≡ p.job ∷ [])
    × (p.cron ≢ [])
    × IsQueued p.job.name jobs
    × IsFree ijs p.job.name
