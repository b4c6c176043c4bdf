-- ===== src/Pool.antt =====
-- pkg/scheduler/pool/pool.go. The map of jobs and the two lists under one lock; the channel is the number of its
-- tokens, and each started timeout goroutine is the time at which it wakes. `Timeout` is set in every
-- job, as `GetDuration` sets it.
pub mod Keys
pub mod Listing
pub mod Invariant
pub mod Phase
pub mod Moves
pub mod Phases
use cicd_operator.Base.{
  ltb, if◌then◌else◌, ◌==◌, nat_eq, Str, str_eq, Map, get, put, del, ℕ, zero, suc, ◌+◌, refl, Bool,
  true, false, ◌&&◌, Option, none, some, List, [], ◌∷◌, ◌++◌, arith,
}
use cicd_operator.Api.{JobState, unset, pending, running, state_eq, IntegrationJob}
use cicd_operator.Structs.Queue.{add, delete}

-- fmt.Sprintf("%s_%s", namespace, name)
unfoldable pub node_id : IntegrationJob → Str
node_id j = j.namespace ++ b'_' ∷ j.name

-- `JobNode.Equals`
unfoldable pub equals : IntegrationJob → IntegrationJob → Bool
equals f g = f.name == g.name && f.namespace == g.namespace

pub record JobPool : Type 0 where
  pub job_map : Map Str IntegrationJob
  pub pending_jobs : List IntegrationJob
  pub running_jobs : List IntegrationJob
  pub schedule_chan : ℕ
  pub chan_cap : ℕ
  pub timers : List ℕ

unfoldable pub new : ℕ → JobPool
new cap = record {
  job_map = [];
  pending_jobs = [];
  running_jobs = [];
  schedule_chan = 0;
  chan_cap = cap;
  timers = [];
}

unfoldable pub send_schedule : JobPool → JobPool
send_schedule p =
    if ltb p.schedule_chan p.chan_cap then record p { schedule_chan = p.schedule_chan + 1 } else p

unfoldable pub add_running : IntegrationJob → JobPool → JobPool
add_running node p = record p { running_jobs = add equals none node p.running_jobs }

unfoldable pub del_pending : IntegrationJob → JobPool → JobPool
del_pending node p = record p { pending_jobs = delete equals node p.pending_jobs }

unfoldable pub del_running : IntegrationJob → JobPool → JobPool
del_running node p = record p { running_jobs = delete equals node p.running_jobs }

-- `go j.manageTimeout(...)`: the goroutine wakes `Timeout` after the creation.
unfoldable pub manage_timeout : IntegrationJob → JobPool → JobPool
manage_timeout job p = record p { timers = (job.creation_timestamp + job.spec.timeout) ∷ p.timers }

unfoldable pub dismiss : IntegrationJob → JobPool → JobPool
unfolding del_pending del_running send_schedule
dismiss job p =
    let q = del_running job (del_pending job p) in
    send_schedule (record q { job_map = del (node_id job) q.job_map })

unfoldable pub has_deletion : Option ℕ → Bool
has_deletion none = false
has_deletion (some t) = true

module _ (compare : IntegrationJob → IntegrationJob → Bool) where
  unfoldable pub add_pending : IntegrationJob → JobPool → JobPool
  add_pending node p = record p { pending_jobs = add equals (some compare) node p.pending_jobs }

  -- The `switch` for a new node.
  unfoldable pub put_new : JobState → IntegrationJob → JobPool → JobPool
  unfolding add_pending add_running manage_timeout
  put_new pending job p = manage_timeout job (add_pending job p)
  put_new running job p = add_running job p
  put_new _ job p = p

  -- A known node whose state changed, by its old and its new state.
  unfoldable pub move : JobState → JobState → IntegrationJob → JobPool → JobPool
  unfolding add_pending add_running del_pending del_running send_schedule
  move pending running job p = add_running job (del_pending job p)
  move pending _ job p = del_pending job p
  move running pending job p = send_schedule (add_pending job (del_running job p))
  move running _ job p =
      let q = del_running job p in
      send_schedule (record q { job_map = del (node_id job) q.job_map })
  move _ _ job p = p

  -- The rest of `SyncJob` from the lookup of the node on.
  unfoldable pub sync_found : Option IntegrationJob → IntegrationJob → JobPool → JobPool
  unfolding put_new send_schedule
  sync_found none job p = send_schedule (put_new job.status.state job p)
  sync_found (some candidate) job p =
      if candidate.status.state == job.status.state
      then p
      else move candidate.status.state job.status.state job p

  unfoldable pub sync_job : IntegrationJob → JobPool → JobPool
  unfolding sync_found dismiss has_deletion
  sync_job job p =
      let candidate = get (node_id job) p.job_map in
      let q = record p { job_map = put (node_id job) job p.job_map } in
      if job.status.state == unset
      then p
      else if has_deletion job.deletion_timestamp
      then dismiss job q
      else sync_found candidate job q
