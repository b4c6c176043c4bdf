-- ===== src/Pool/Phase.antt =====
-- pkg/scheduler/pool/pool.go: the phases of one job in the pool.
use cicd_operator.Base.{if◌then◌else◌, ◌==◌, nat_eq, str_eq, Bool, true, false, Option, none, some}
use cicd_operator.Api.{JobState, unset, pending, running, state_eq}
use cicd_operator.Pool.{JobPool}
use cicd_operator.Pool.Keys.{JobKey, key_eq}
use cicd_operator.Pool.Listing.{listed, known}

-- Not known; in the pending list; in the running list; known in that state only.
pub data Phase : Type 0 where
  absent queued started : Phase
  idle : JobState → Phase

-- What a notification of the job in that state does to its phase.
abbrev pub enters : JobState → Phase
enters unset = absent
enters pending = queued
enters running = started
enters s = idle s

abbrev pub next_phase : JobState → Phase → Phase
next_phase unset ph = ph
next_phase s absent = enters s
next_phase s queued = enters s
next_phase pending started = queued
next_phase running started = started
next_phase s started = absent
next_phase pending (idle pending) = idle pending
next_phase s (idle pending) = enters s
next_phase pending (idle running) = queued
next_phase running (idle running) = idle running
next_phase s (idle running) = absent
next_phase s (idle old) = idle s

-- A deleted job is forgotten.
abbrev pub notified : JobState → Bool → Phase → Phase
notified s deleted ph = if s == unset then ph else if deleted then absent else next_phase s ph

abbrev pub phase_from : Bool → Bool → Option JobState → Phase
phase_from true r s = queued
phase_from false true s = started
phase_from false false none = absent
phase_from false false (some s) = idle s

-- The phase of a job in a pool.
abbrev pub phase : JobKey → JobPool → Phase
phase k p = phase_from (listed k p.pending_jobs) (listed k p.running_jobs) (known k p.job_map)
