-- ===== src/Scheduler/Reach.antt =====
-- pkg/scheduler/scheduler.go and pool/pool.go: the scheduler as a whole, as a sequence of notifications, timeouts and
-- passes. Notifications and passes hold the pool's lock; a timeout's test and its send are taken as one step.
use cicd_operator.Base.{nat_eq, str_eq, ℕ, ◌-◌, ◌<◌, ◌≡◌, sym, List, ◌∷◌, ◌++◌, arith}
use mathlib.Core.Path.{subst}
use cicd_operator.Api.{IntegrationJob}
use cicd_operator.Pool.{JobPool, new, send_schedule, sync_job}
use cicd_operator.Pool.Keys.{NoUnderscore}
use cicd_operator.Pool.Listing.{Inv}
use cicd_operator.Pool.Invariant.{sync_job-Inv}
use cicd_operator.Scheduler.{Cluster, run}
use cicd_operator.Scheduler.Fifo.{fifo_compare}
use cicd_operator.Scheduler.Pass.{run-Inv}

-- `scheduler.New`: a channel with room for one token.
unfoldable pub new_scheduler : JobPool
unfolding new
new_scheduler = new 1

-- `Notify`
unfoldable pub notify : IntegrationJob → JobPool → JobPool
unfolding sync_job
notify job p = sync_job fifo_compare job p

-- One round of `start`: a token is taken from the channel, and a pass is run.
unfoldable pub start_round : Cluster → JobPool → JobPool
unfolding run
start_round c p = (run c (record p { schedule_chan = p.schedule_chan - 1 })).0

-- A timeout goroutine wakes.
unfoldable pub wake : List ℕ → JobPool → JobPool
unfolding send_schedule
wake others p = send_schedule (record p { timers = others })

-- The steps of the program. Which goroutine wakes, what the cluster answers, and which job is notified is
-- not determined.
pub data Step (p q : JobPool) : Type 0 where
  notifies : (job : IntegrationJob) → NoUnderscore job.namespace → q ≡ notify job p → Step p q
  wakes :
      (before after : List ℕ) (t : ℕ)
      → p.timers ≡ before ++ t ∷ after
      → q ≡ wake (before ++ after) p
      → Step p q
  passes : (c : Cluster) → 0 < p.schedule_chan → q ≡ start_round c p → Step p q

pub data Reach (p : JobPool) : JobPool → Type 0 where
  here : Reach p p
  next : {q r : JobPool} → Reach p q → Step q r → Reach p r

new_scheduler-Inv : Inv new_scheduler
unfolding new_scheduler
new_scheduler-Inv = record {
  pending_listed = λ k n h. cc;
  running_listed = λ k n h. cc;
  pending_distinct = tt;
  running_distinct = tt;
  bounded = omega arith;
}

wake-Inv : (others : List ℕ) (p : JobPool) → Inv p → Inv (wake others p)
unfolding wake
wake-Inv others p v = record {
  pending_listed = ground (arith, v.pending_listed);
  running_listed = ground (arith, v.running_listed);
  pending_distinct = ground (arith, v.pending_distinct);
  running_distinct = ground (arith, v.running_distinct);
  bounded = ground (arith, v.bounded);
}

start_round-Inv : (c : Cluster) (p : JobPool) → Inv p → Inv (start_round c p)
unfolding start_round
start_round-Inv c p v =
    run-Inv c (record p { schedule_chan = p.schedule_chan - 1 })
      (record {
        pending_listed = v.pending_listed;
        running_listed = v.running_listed;
        pending_distinct = v.pending_distinct;
        running_distinct = v.running_distinct;
        bounded = omega (arith, v.bounded);
      })

Step-Inv : {p q : JobPool} → Step p q → Inv p → Inv q
Step-Inv {p} (notifies job n e) v =
    subst Inv (sym e) (unfold notify in sync_job-Inv fifo_compare job p n v)
Step-Inv {p} (wakes before after t h e) v = subst Inv (sym e) (wake-Inv (before ++ after) p v)
Step-Inv {p} (passes c h e) v = subst Inv (sym e) (start_round-Inv c p v)

-- Every state that the scheduler can reach from its start, by notifications of jobs whose namespaces have no
-- underscore, timeouts that wake and passes, is consistent.
pub Reach-Inv : {p : JobPool} → Reach new_scheduler p → Inv p
Reach-Inv here = new_scheduler-Inv
Reach-Inv (next r s) = Step-Inv s (Reach-Inv r)
