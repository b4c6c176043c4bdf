-- ===== src/Tests/Scheduler.antt =====
-- pkg/scheduler with one place, one finished run and two pending jobs of which the first is late.
use cicd_operator.Base.{
  if◌then◌else◌, ◌==◌, nat_eq, In, All, Str, str, str_beq, str_eq, ℕ, ◌-◌, ◌≤◌, ◌<◌, ◌≡◌, refl,
  true, none, [], ◌∷◌, arith,
}
use cicd_operator.Api.{
  JobState, pending, running, IntegrationJob, JobSpec, Refs, RefsBase, pre_submit,
}
use cicd_operator.Pool.{JobPool, new, node_id, sync_job}
use cicd_operator.Pool.Listing.{Inv}
use cicd_operator.Pool.Invariant.{sync_job-Inv}
use cicd_operator.Pool.Keys.{NoUnderscore}
use cicd_operator.Scheduler.{
  Cluster, Lookup, not_found, exists_run, created, patched_failed, patch_failed, timeout_message,
  run, is_idle,
}
use cicd_operator.Scheduler.Fifo.{fifo_compare}
use cicd_operator.Scheduler.Capacity.{creates, live, run-creates}
use cicd_operator.Pool.{has_deletion}
use cicd_operator.Pool.Keys.{key_of, key_eq}
use cicd_operator.Pool.Phase.{phase, notified}
use cicd_operator.Pool.Phases.{sync_job-phase}
use cicd_operator.Scheduler.Reach.{new_scheduler, notify, Reach, here, next, notifies, Reach-Inv}
use cicd_operator.Scheduler.Pass.{Eligible, Justified, run-Justified}
use cicd_operator.Scheduler.Timeout.{IsLate, after_timeout, run_creates_first, late_created}

abbrev job_of : Str → ℕ → JobState → IntegrationJob
job_of name time state =
    let base : RefsBase = record { ref = str "refs/heads/main"; link = []; sha = [] } in
    let refs : Refs = record {
      repository = str "r";
      link = [];
      sender = none;
      base = base;
      pulls = none;
    } in
    let spec : JobSpec = record {
      config_ref = record { name = str "config"; type = pre_submit };
      id = name;
      workspaces = [];
      jobs = [];
      refs = refs;
      timeout = 60;
      param_config = none;
    } in
    record {
      name = name;
      namespace = str "ci";
      labels = [];
      creation_timestamp = time;
      deletion_timestamp = none;
      finalizers = [];
      spec = spec;
      status = record {
        state = state;
        message = [];
        start_time = none;
        completion_time = none;
        jobs = [];
      };
    }

abbrev older : IntegrationJob
older = job_of (str "b") 10 pending

abbrev newer : IntegrationJob
newer = job_of (str "a") 50 pending

abbrev done : IntegrationJob
done = job_of (str "c") 5 running

abbrev open_pool : JobPool
open_pool = record {
  job_map = (node_id older, older) ∷ (node_id newer, newer) ∷ (node_id done, done) ∷ [];
  pending_jobs = older ∷ newer ∷ [];
  running_jobs = done ∷ [];
  schedule_chan = 1;
  chan_cap = 1;
  timers = [];
}

abbrev get_run_of : IntegrationJob → Lookup
get_run_of j = if j.name == str "c" then exists_run true else not_found

abbrev cluster_at : ℕ → Cluster
cluster_at now = record {
  get_run = get_run_of;
  generate = λ j. none;
  set_reference = λ j. none;
  create = λ j. none;
  max_pipeline_run = 1;
  now = now;
}

ci-NoUnderscore : NoUnderscore (str "ci")
ci-NoUnderscore = ((λ e. omega arith), ((λ e. omega arith), tt))

new-Inv : Inv (new 1)
unfolding new
new-Inv = record {
  pending_listed = λ k n h. cc;
  running_listed = λ k n h. cc;
  pending_distinct = tt;
  running_distinct = tt;
  bounded = omega arith;
}

sync_job-Inv_example : Inv (sync_job fifo_compare older (new 1))
sync_job-Inv_example = sync_job-Inv fifo_compare older (new 1) ci-NoUnderscore new-Inv

run-creates_example :
    creates (run (cluster_at 60) open_pool).1.actions ≤ 1 - live (cluster_at 60) (done ∷ [])
run-creates_example = run-creates (cluster_at 60) open_pool

run-Justified_example : All (Justified (cluster_at 60)) (run (cluster_at 60) open_pool).1.actions
run-Justified_example = run-Justified (cluster_at 60) open_pool

abbrev one_pending : JobPool
one_pending = sync_job fifo_compare older (new 1)

one_pending-Inv : Inv one_pending
one_pending-Inv = sync_job-Inv fifo_compare older (new 1) ci-NoUnderscore new-Inv

place_free : (now : ℕ) → live (cluster_at now) (done ∷ []) < 1
unfolding str_beq is_idle
place_free now = ground arith

eligible : (now : ℕ) → Eligible (cluster_at now) (after_timeout (cluster_at now) older)
unfolding str_beq patch_failed
eligible now = record { absent = ground arith; generates = refl; owned = refl; accepted = refl }

run_creates_first_example :
    In (created (after_timeout (cluster_at 60) older)) (run (cluster_at 60) open_pool).1.actions
run_creates_first_example =
    run_creates_first (cluster_at 60) open_pool older (newer ∷ []) refl (place_free 60)
      (eligible 60)

older-IsLate : IsLate (cluster_at 100) older
older-IsLate = omega arith

late-Eligible : Eligible (cluster_at 100) (patch_failed 100 (timeout_message older) older)
unfolding str_beq patch_failed
late-Eligible = record { absent = refl; generates = refl; owned = refl; accepted = refl }

late_created_example :
    In (patched_failed older) (run (cluster_at 100) open_pool).1.actions
    × In
        (created (patch_failed 100 (timeout_message older) older))
        (run (cluster_at 100) open_pool).1.actions
late_created_example =
    late_created (cluster_at 100) open_pool older (newer ∷ []) refl older-IsLate (place_free 100)
      late-Eligible

sync_job-phase_example : phase (key_of older) (sync_job fifo_compare older (new 1)) ≡ (
    if key_of older == key_of older
    then notified older.status.state
        (has_deletion older.deletion_timestamp)
        (phase (key_of older) (new 1))
    else phase (key_of older) (new 1))
sync_job-phase_example =
    sync_job-phase fifo_compare older (new 1) (key_of older) ci-NoUnderscore ci-NoUnderscore new-Inv

notified_once : Reach new_scheduler (notify older new_scheduler)
notified_once = next here (notifies older ci-NoUnderscore refl)

Reach-Inv_example : Inv (notify older new_scheduler)
Reach-Inv_example = Reach-Inv notified_once
