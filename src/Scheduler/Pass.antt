-- ===== src/Scheduler/Pass.antt =====
-- pkg/scheduler/scheduler.go: for which jobs a pass creates a run, and that it leaves the pool consistent.
use cicd_operator.Base.{
  Bool-cases, nat_eq, In, All, Str, str_eq, Map, ℤ, is_pos, ◌≡◌, refl, inl, inr, none, List, arith,
}
use cicd_operator.Api.{JobState, pending, running, IntegrationJob}
use cicd_operator.Structs.Queue.{for_each}
use cicd_operator.Structs.Queue.Loops.{for_each_invariant, has-for_each, for_each-Unique}
use cicd_operator.Pool.{JobPool, equals}
use cicd_operator.Pool.Keys.{key_of, key_eq}
use cicd_operator.Pool.Listing.{Inv, Listing, Distinct}
use cicd_operator.Scheduler.{
  not_found, Cluster, Action, created, Progress, filter_out_running, filter_out_pending,
  schedule_pending, schedule_found, generate_run, create_run, run,
}
use cicd_operator.Scheduler.Capacity.{starting, counted, expired}

module _ (c : Cluster) where
  -- The cluster has no run of the job, and takes one.
  pub record Eligible (j : IntegrationJob) : Type 0 where
    pub absent : c.get_run j ≡ not_found
    pub generates : c.generate j ≡ none
    pub owned : c.set_reference j ≡ none
    pub accepted : c.create j ≡ none

  abbrev pub Justified : Action → Type 0
  Justified (created j) = Eligible j
  Justified _ = Unit {0}

  JustifiedAll : Progress → Type 0
  JustifiedAll s = All Justified s.actions

  filter_out_running-Justified :
      (s : Progress) (j : IntegrationJob)
      → JustifiedAll s
      → JustifiedAll (filter_out_running c s j).0
  unfolding filter_out_running JustifiedAll
  filter_out_running-Justified s j h = ground arith

  filter_out_pending-Justified :
      (s : Progress) (j : IntegrationJob)
      → JustifiedAll s
      → JustifiedAll (filter_out_pending c s j).0
  unfolding filter_out_pending JustifiedAll
  filter_out_pending-Justified s j h = ground arith

  schedule_pending-Justified :
      (s : Progress) (j : IntegrationJob) → JustifiedAll s → JustifiedAll (schedule_pending c s j).0
  unfolding schedule_pending schedule_found generate_run create_run JustifiedAll
  schedule_pending-Justified s j h = ground arith

  -- A pass creates runs only for jobs for which the cluster has no run, whose run is generated and
  -- owned, and accepted.
  pub run-Justified : (p : JobPool) → All Justified (run c p).1.actions
  unfolding run JustifiedAll
  run-Justified p =
      let s₁ =
        for_each_invariant (filter_out_running c) JustifiedAll filter_out_running-Justified
          (starting c p) p.running_jobs tt in
      let s₂ =
        for_each_invariant (filter_out_pending c) JustifiedAll filter_out_pending-Justified
          (counted c p) p.pending_jobs s₁ in
      let s₃ =
        for_each_invariant (schedule_pending c) JustifiedAll schedule_pending-Justified
          (expired c p).0 (expired c p).1 s₂ in
      ground (arith, s₂, s₃)

  filter_out_running-key :
      (s : Progress) (j : IntegrationJob) → key_of (filter_out_running c s j).1 ≡ key_of j
  unfolding filter_out_running
  filter_out_running-key s j = refl

  filter_out_pending-key :
      (s : Progress) (j : IntegrationJob) → key_of (filter_out_pending c s j).1 ≡ key_of j
  unfolding filter_out_pending
  filter_out_pending-key s j = ground arith

  schedule_pending-key :
      (s : Progress) (j : IntegrationJob) → key_of (schedule_pending c s j).1 ≡ key_of j
  unfolding schedule_pending schedule_found generate_run create_run
  schedule_pending-key s j = ground arith

  module _ (f : Progress → IntegrationJob → Progress × IntegrationJob)
      (h : (s : Progress) (j : IntegrationJob) → key_of (f s j).1 ≡ key_of j) where
    Listing-for_each :
        (st : JobState) (s : Progress) (l : List IntegrationJob) (m : Map Str IntegrationJob)
        → Listing st l m
        → Listing st (for_each f s l).1 m
    Listing-for_each st s l m w k hk y = w k hk (rw (← has-for_each f equals key_of h k s l) y)

  -- The lists that the three loops leave behind.
  abbrev still_running : JobPool → List IntegrationJob
  still_running p = (for_each (filter_out_running c) (starting c p) p.running_jobs).1

  abbrev scheduled : JobPool → List IntegrationJob
  scheduled p = (for_each (schedule_pending c) (expired c p).0 (expired c p).1).1

  relisted-Inv :
      (p : JobPool) (l : List IntegrationJob)
      → Listing pending l p.job_map
      → Distinct l
      → Inv p
      → Inv (record p { running_jobs = still_running p; pending_jobs = l })
  relisted-Inv p l w u v = record {
    pending_listed = w;
    running_listed =
        Listing-for_each (filter_out_running c) filter_out_running-key running (starting c p)
          p.running_jobs p.job_map v.running_listed;
    pending_distinct = u;
    running_distinct =
        for_each-Unique (filter_out_running c) equals key_of filter_out_running-key (starting c p)
          p.running_jobs v.running_distinct;
    bounded = v.bounded;
  }

  -- A pass keeps a consistent pool consistent.
  pub run-Inv : (p : JobPool) → Inv p → Inv (run c p).0
  unfolding run
  run-Inv p v =
      let w₂ =
        Listing-for_each (filter_out_pending c) filter_out_pending-key pending (counted c p)
          p.pending_jobs p.job_map v.pending_listed in
      let u₂ =
        for_each-Unique (filter_out_pending c) equals key_of filter_out_pending-key (counted c p)
          p.pending_jobs v.pending_distinct in
      let w₃ =
        Listing-for_each (schedule_pending c) schedule_pending-key pending (expired c p).0
          (expired c p).1 p.job_map w₂ in
      let u₃ =
        for_each-Unique (schedule_pending c) equals key_of schedule_pending-key (expired c p).0
          (expired c p).1 u₂ in
      elim (Bool-cases (is_pos (expired c p).0.available)) [
        | inl free ↦ rw free (relisted-Inv p (scheduled p) w₃ u₃ v)
        | inr full ↦ rw full (relisted-Inv p (expired c p).1 w₂ u₂ v)
      ]

  pub schedule_pending-In :
      (a : Action) (s : Progress) (j : IntegrationJob)
      → In a s.actions
      → In a (schedule_pending c s j).0.actions
  unfolding schedule_pending schedule_found generate_run create_run
  schedule_pending-In a s j h = ground (arith, h)

  pub filter_out_pending-In :
      (a : Action) (s : Progress) (j : IntegrationJob)
      → In a s.actions
      → In a (filter_out_pending c s j).0.actions
  unfolding filter_out_pending
  filter_out_pending-In a s j h = ground (arith, h)

  pub filter_out_pending-available :
      (z : ℤ) (s : Progress) (j : IntegrationJob)
      → s.available ≡ z
      → (filter_out_pending c s j).0.available ≡ z
  unfolding filter_out_pending
  filter_out_pending-available z s j h = ground arith
