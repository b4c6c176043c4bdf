-- ===== src/Scheduler.antt =====
-- pkg/scheduler: one pass of the scheduler over the pool. The cluster answers each request by a function of
-- the job; `time.Now()` is `now`.
pub mod Fifo
pub mod Capacity
pub mod Pass
pub mod Timeout
pub mod Reach
use cicd_operator.Base.{
  ltb, if◌then◌else◌, nat_eq, Str, str, str_eq, ℤ, pos, negsuc, sub_ℕ, incr, decr, is_pos, ℕ, zero,
  suc, ◌+◌, refl, Bool, true, false, Option, none, some, List, [], ◌∷◌, ◌++◌, arith,
}
use cicd_operator.Api.{failed, IntegrationJob}
use cicd_operator.Structs.Queue.{for_each, count}
use cicd_operator.Pool.{JobPool}

-- What `Get` of the job's PipelineRun returns; a run that exists may have its completion time set.
pub data Lookup : Type 0 where
  not_found lookup_error : Lookup
  exists_run : Bool → Lookup

-- The cluster and the pipeline manager. A result `some msg` is an error.
pub record Cluster : Type 0 where
  pub get_run : IntegrationJob → Lookup
  pub generate : IntegrationJob → Option Str
  pub set_reference : IntegrationJob → Option Str
  pub create : IntegrationJob → Option Str
  pub max_pipeline_run : ℕ
  pub now : ℕ

-- The requests that change the cluster.
pub data Action : Type 0 where
  created : IntegrationJob → Action
  create_refused : IntegrationJob → Action
  patched_failed : IntegrationJob → Action

-- What the iterators close over: `availableCnt`, and the requests made so far, latest first.
pub record Progress : Type 0 where
  pub available : ℤ
  pub actions : List Action

-- `patchJobScheduleFailed`: the job in the list is changed through its pointer.
unfoldable pub patch_failed : ℕ → Str → IntegrationJob → IntegrationJob
patch_failed now msg job = record job {
  status = record job.status { state = failed; message = msg; completion_time = some now };
}

-- A run that is not found or completed does not count as running.
unfoldable pub is_idle : Lookup → Bool
is_idle not_found = true
is_idle lookup_error = false
is_idle (exists_run done) = done

abbrev pub timeout_message : IntegrationJob → Str
timeout_message j =
    str "integration job " ++ (j.namespace ++ (b'_' ∷ (j.name ++ str " is failed due to timeout")))

module _ (c : Cluster) where
  unfoldable pub filter_out_running : Progress → IntegrationJob → Progress × IntegrationJob
  unfolding is_idle
  filter_out_running s j =
      (if is_idle (c.get_run j) then record s { available = incr s.available } else s, j)

  unfoldable pub filter_out_pending : Progress → IntegrationJob → Progress × IntegrationJob
  unfolding patch_failed
  filter_out_pending s j =
      if ltb (j.creation_timestamp + j.spec.timeout) c.now
      then (
        record s { actions = patched_failed j ∷ s.actions },
        patch_failed c.now (timeout_message j) j,
      )
      else (s, j)

  -- From the generated PipelineRun on: each error fails the job.
  unfoldable pub fail_job : Progress → Str → IntegrationJob → Progress × IntegrationJob
  unfolding patch_failed
  fail_job s msg j = (record s { actions = patched_failed j ∷ s.actions }, patch_failed c.now msg j)

  unfoldable pub create_run : Progress → IntegrationJob → Progress × IntegrationJob
  unfolding fail_job
  create_run s j = elim (c.create j) [
    | none ↦ (record s { available = decr s.available; actions = created j ∷ s.actions }, j)
    | some msg ↦ fail_job (record s { actions = create_refused j ∷ s.actions }) msg j
  ]

  unfoldable pub generate_run : Progress → IntegrationJob → Progress × IntegrationJob
  unfolding create_run
  generate_run s j = elim (c.generate j) [
    | some msg ↦ fail_job s msg j
    | none ↦ elim (c.set_reference j) [ some msg ↦ fail_job s msg j | none ↦ create_run s j ]
  ]

  unfoldable pub schedule_found : Lookup → Progress → IntegrationJob → Progress × IntegrationJob
  unfolding generate_run
  schedule_found not_found s j = generate_run s j
  schedule_found lookup_error s j = (s, j)
  schedule_found (exists_run done) s j = (record s { available = decr s.available }, j)

  unfoldable pub schedule_pending : Progress → IntegrationJob → Progress × IntegrationJob
  unfolding schedule_found
  schedule_pending s j = if is_pos s.available then schedule_found (c.get_run j) s j else (s, j)

  -- `run`, with the lists that it leaves behind.
  unfoldable pub run : JobPool → JobPool × Progress
  run p =
      let start = sub_ℕ c.max_pipeline_run (count p.running_jobs) in
      let (s₁, running') =
        for_each filter_out_running (record { available = start; actions = [] }) p.running_jobs in
      let (s₂, pending₂) = for_each filter_out_pending s₁ p.pending_jobs in
      let (s₃, pending₃) = for_each schedule_pending s₂ pending₂ in
      if is_pos s₂.available
      then (record p { running_jobs = running'; pending_jobs = pending₃ }, s₃)
      else (record p { running_jobs = running'; pending_jobs = pending₂ }, s₂)
