-- ===== src/Scheduler/Timeout.antt =====
-- pkg/scheduler/scheduler.go: what a pass does with the first pending job.
use cicd_operator.Base.{
  ltb, if◌then◌else◌, Bool-cases, nat_eq, In, str_eq, sub_ℕ, is_pos, ℕ, ◌+◌, ◌<◌, ◌≡◌, refl, ap,
  ◌∙◌, inl, inr, true, List, [], ◌∷◌, arith,
}
use mathlib.Core.Path.{subst}
use cicd_operator.Api.{IntegrationJob}
use cicd_operator.Structs.Queue.{for_each}
use cicd_operator.Structs.Queue.Loops.{for_each_invariant}
use cicd_operator.Pool.{JobPool}
use cicd_operator.Scheduler.{
  Cluster, created, patched_failed, Progress, patch_failed, timeout_message, filter_out_pending,
  schedule_pending, schedule_found, generate_run, create_run, run,
}
use cicd_operator.Scheduler.Capacity.{live, counted, counted_lem, expired}
use cicd_operator.Scheduler.Pass.{
  Eligible, schedule_pending-In, filter_out_pending-In, filter_out_pending-available,
}

is_pos-sub_ℕ : (a b : ℕ) → b < a → is_pos (sub_ℕ a b) ≡ true
unfolding is_pos sub_ℕ
is_pos-sub_ℕ a b h = ground arith

module _ (c : Cluster) where
  -- The job as the first loop over the pending list leaves it.
  abbrev pub after_timeout : IntegrationJob → IntegrationJob
  after_timeout j =
      if ltb (j.creation_timestamp + j.spec.timeout) c.now
      then patch_failed c.now (timeout_message j) j
      else j

  head-expired :
      (s : Progress) (j : IntegrationJob) (rest : List IntegrationJob)
      → (l : List IntegrationJob) × ((for_each (filter_out_pending c) s (j ∷ rest)).1
          ≡ after_timeout j ∷ l)
  unfolding for_each filter_out_pending
  head-expired s j rest =
      ((for_each (filter_out_pending c) (filter_out_pending c s j).0 rest).1, ground arith)

  created_head :
      (s : Progress) (j : IntegrationJob) (l : List IntegrationJob)
      → is_pos s.available ≡ true
      → Eligible c j
      → In (created j) (for_each (schedule_pending c) s (j ∷ l)).0.actions
  unfolding for_each
  created_head s j l h g =
      for_each_invariant (schedule_pending c) (λ t. In (created j) t.actions)
        (λ t x. schedule_pending-In c (created j) t x) (schedule_pending c s j).0 l first_step
    where
      first_step : In (created j) (schedule_pending c s j).0.actions
      first_step =
          unfold schedule_pending schedule_found generate_run create_run in ground (arith, g, h)

  still_available :
      (p : JobPool) → (expired c p).0.available ≡ sub_ℕ c.max_pipeline_run (live c p.running_jobs)
  still_available p =
      for_each_invariant (filter_out_pending c)
        (λ t. t.available ≡ sub_ℕ c.max_pipeline_run (live c p.running_jobs))
        (λ t x. filter_out_pending-available c _ t x) (counted c p) p.pending_jobs
        (cc (counted_lem c p))

  -- While a place is free, the first pending job gets its run, if the cluster has none for it and
  -- takes it.
  pub run_creates_first :
      (p : JobPool) (j : IntegrationJob) (rest : List IntegrationJob)
      → p.pending_jobs ≡ j ∷ rest
      → live c p.running_jobs < c.max_pipeline_run
      → Eligible c (after_timeout j)
      → In (created (after_timeout j)) (run c p).1.actions
  unfolding run
  run_creates_first p j rest e h g =
      let (l, q) = head-expired (counted c p) j rest in
      let q' : (expired c p).1 ≡ after_timeout j ∷ l =
        ap (λ (w : List IntegrationJob). (for_each (filter_out_pending c) (counted c p) w).1) e
        ∙ q in
      let free : is_pos (expired c p).0.available ≡ true =
        rw (still_available p) (is_pos-sub_ℕ _ _ h) in
      rw (free, q') (created_head (expired c p).0 (after_timeout j) l free g)

  abbrev pub IsLate : IntegrationJob → Type 0
  IsLate j = j.creation_timestamp + j.spec.timeout < c.now

  patched_late :
      (s : Progress) (j : IntegrationJob) (l : List IntegrationJob)
      → In j l
      → IsLate j
      → In (patched_failed j) (for_each (filter_out_pending c) s l).0.actions
  unfolding for_each
  patched_late s j [] m t = absurd m
  patched_late s j (x ∷ l) (inl e) t =
      for_each_invariant (filter_out_pending c) (λ w. In (patched_failed j) w.actions)
        (λ w y. filter_out_pending-In c (patched_failed j) w y) (filter_out_pending c s x).0 l
        (subst (λ (y : IntegrationJob). In (patched_failed j) (filter_out_pending c s y).0.actions)
          e first_step)
    where
      first_step : In (patched_failed j) (filter_out_pending c s j).0.actions
      first_step = unfold filter_out_pending in ground (arith, t)
  patched_late s j (x ∷ l) (inr m) t = patched_late (filter_out_pending c s x).0 j l m t

  -- Every pending job whose time has run out is failed by the pass, also when no place is free.
  pub late_patched :
      (p : JobPool) (j : IntegrationJob)
      → In j p.pending_jobs
      → IsLate j
      → In (patched_failed j) (run c p).1.actions
  unfolding run
  late_patched p j m t =
      let h = patched_late (counted c p) j p.pending_jobs m t in
      elim (Bool-cases (is_pos (expired c p).0.available)) [
        | inl free ↦ rw free (
            for_each_invariant (schedule_pending c) (λ w. In (patched_failed j) w.actions)
              (λ w y. schedule_pending-In c (patched_failed j) w y) (expired c p).0 (expired c p).1
              h)
        | inr full ↦ rw full h
      ]

  -- While a place is free, a first pending job whose time has run out is failed by the pass, and gets
  -- its run in the same pass, if the cluster has none for it and takes it.
  pub late_created :
      (p : JobPool) (j : IntegrationJob) (rest : List IntegrationJob)
      → p.pending_jobs ≡ j ∷ rest
      → IsLate j
      → live c p.running_jobs < c.max_pipeline_run
      → Eligible c (patch_failed c.now (timeout_message j) j)
      → In (patched_failed j) (run c p).1.actions
        × In (created (patch_failed c.now (timeout_message j) j)) (run c p).1.actions
  late_created p j rest e t h g =
      let late : after_timeout j ≡ patch_failed c.now (timeout_message j) j = ground (arith, t) in
      (
        late_patched p j (rw e (inl refl)) t,
        subst (λ x. In (created x) (run c p).1.actions) late
            (run_creates_first p j rest e h (rw late g)),
      )
