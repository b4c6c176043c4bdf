-- ===== src/Scheduler/Capacity.antt =====
-- pkg/scheduler/scheduler.go: how many runs one pass creates, and for which jobs.
use cicd_operator.Base.{
  if◌then◌else◌, Bool-cases, nat_eq, length, str_eq, sub_ℕ, decr, is_pos, to_nat, incr-sub_ℕ,
  to_nat-sub_ℕ, ℕ, suc, ◌+◌, ◌-◌, ◌≤◌, ◌≡◌, refl, inl, inr, true, List, [], ◌∷◌, arith,
}
use native.Mathlib.Nat.{add-zero}
use cicd_operator.Api.{IntegrationJob}
use cicd_operator.Structs.Queue.{for_each, count}
use cicd_operator.Structs.Queue.Loops.{for_each_measure, count-length}
use cicd_operator.Pool.{JobPool}
use cicd_operator.Scheduler.{
  Cluster, Action, created, Progress, is_idle, filter_out_running, filter_out_pending,
  schedule_pending, schedule_found, generate_run, create_run, run,
}

-- The runs that the pass created.
abbrev pub creates : List Action → ℕ
creates [] = 0
creates (created j ∷ as') = suc (creates as')
creates (_ ∷ as') = creates as'

sum_left : (a b : ℕ) → suc a + b ≡ suc (a + b)
sum_left a b = omega arith

sum_right : (a b : ℕ) → a + suc b ≡ suc (a + b)
sum_right a b = omega arith

module _ (c : Cluster) where
  -- The jobs of the running list that have a run which is not completed.
  abbrev pub live : List IntegrationJob → ℕ
  live [] = 0
  live (j ∷ l) = if is_idle (c.get_run j) then live l else suc (live l)

  -- The pass of `filterOutRunning` ends with the places that the live runs leave free.
  available-filter_out_running :
      (m n : ℕ) (as' : List Action) (l : List IntegrationJob)
      → (for_each
          (filter_out_running c)
          (record { available = sub_ℕ m (length l + n); actions = as' })
          l).0
        ≡ record { available = sub_ℕ m (live l + n); actions = as' }
  unfolding for_each filter_out_running
  available-filter_out_running m n as' [] = refl
  available-filter_out_running m n as' (j ∷ l) = elim (Bool-cases (is_idle (c.get_run j))) [
    | inl i ↦
        rw (i, sum_left (length l) n, incr-sub_ℕ m (length l + n))
          (available-filter_out_running m n as' l)
    | inr i ↦
        rw
          (
            i,
            sum_left (length l) n,
            sum_left (live l) n,
            ← sum_right (length l) n,
            ← sum_right (live l) n,
          )
          (available-filter_out_running m (suc n) as' l)
  ]

  -- What is created and what is still free.
  abbrev spent : Progress → ℕ
  spent s = creates s.actions + to_nat s.available

  create_run_spends :
      (s : Progress) (j : IntegrationJob)
      → is_pos s.available ≡ true
      → spent (create_run c s j).0 ≤ spent s
  unfolding create_run is_pos decr
  create_run_spends s j h = ground arith

  schedule_pending_spends :
      (s : Progress) (j : IntegrationJob) → spent (schedule_pending c s j).0 ≤ spent s
  unfolding schedule_pending schedule_found generate_run is_pos decr
  schedule_pending_spends s j = ground arith

  filter_out_pending_spends :
      (s : Progress) (j : IntegrationJob) → spent (filter_out_pending c s j).0 ≤ spent s
  unfolding filter_out_pending
  filter_out_pending_spends s j = ground arith

  -- The progress after each of the three loops of `run`.
  abbrev pub starting : JobPool → Progress
  starting p = record { available = sub_ℕ c.max_pipeline_run (count p.running_jobs); actions = [] }

  abbrev pub counted : JobPool → Progress
  counted p = (for_each (filter_out_running c) (starting p) p.running_jobs).0

  abbrev pub expired : JobPool → Progress × List IntegrationJob
  expired p = for_each (filter_out_pending c) (counted p) p.pending_jobs

  pub counted_lem :
      (p : JobPool)
      → counted p
        ≡ record { available = sub_ℕ c.max_pipeline_run (live p.running_jobs); actions = [] }
  counted_lem p = cc (
    available-filter_out_running c.max_pipeline_run 0 [] p.running_jobs,
    count-length p.running_jobs,
    add-zero (length p.running_jobs),
    add-zero (live p.running_jobs),
  )

  -- A pass creates no more runs than the limit leaves free beside the jobs of the running list that
  -- have a run which is not completed.
  pub run-creates :
      (p : JobPool) → creates (run c p).1.actions ≤ c.max_pipeline_run - live p.running_jobs
  unfolding run
  run-creates p =
      let s₂ = expired p in
      ground (
        arith,
        counted_lem p,
        to_nat-sub_ℕ c.max_pipeline_run (live p.running_jobs),
        for_each_measure (filter_out_pending c) spent filter_out_pending_spends (counted p)
            p.pending_jobs,
        for_each_measure (schedule_pending c) spent schedule_pending_spends s₂.0 s₂.1,
      )
