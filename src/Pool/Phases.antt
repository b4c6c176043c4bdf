-- ===== src/Pool/Phases.antt =====
-- pkg/scheduler/pool/pool.go: what the pool promises for one job, as an automaton of four phases.
use cicd_operator.Base.{
  if◌then◌else◌, Bool-cases, ◌==◌, nat_eq, str_eq, get, ◌≡◌, refl, sym, ap, ◌∙◌, ◌≢◌, inl, inr,
  Bool, Option, none, some, arith,
}
use cicd_operator.Api.{
  JobState, unset, pending, running, completed, failed, state_eq, state_beq_iff, IntegrationJob,
}
use cicd_operator.Pool.{
  JobPool, node_id, send_schedule, has_deletion, put_new, move, sync_found, sync_job,
}
use cicd_operator.Pool.Keys.{JobKey, key_of, key_eq, NoUnderscore, id_of}
use cicd_operator.Pool.Listing.{state_of, known, Inv}
use cicd_operator.Pool.Phase.{next_phase, notified, phase}
use cicd_operator.Pool.Moves.{
  holding, updated, dismiss-phase, put_new-phase, from_pending-phase, from_running-phase,
  idle-phase, same-phase,
}

module _ (compare : IntegrationJob → IntegrationJob → Bool) (job : IntegrationJob) (p : JobPool)
    (k : JobKey) (hj : NoUnderscore job.namespace) (hk : NoUnderscore k.namespace) (v : Inv p) where
  move-phase :
      (old : JobState)
      → job.status.state ≢ unset
      → old ≢ job.status.state
      → known (key_of job) p.job_map ≡ some old
      → phase k (move compare old job.status.state job (holding compare job p k hj hk v))
        ≡ updated compare job p k hj hk v (next_phase job.status.state (phase k p))
  unfolding move
  move-phase pending u m n =
      from_pending-phase compare job p k hj hk v job.status.state refl u (λ e. m (sym e)) n
  move-phase running u m n =
      from_running-phase compare job p k hj hk v job.status.state refl u (λ e. m (sym e)) n
  move-phase unset u m n =
      idle-phase compare job p k hj hk v unset job.status.state refl u (λ c. cc) (λ c. cc) n
  move-phase completed u m n =
      idle-phase compare job p k hj hk v completed job.status.state refl u (λ c. cc) (λ c. cc) n
  move-phase failed u m n =
      idle-phase compare job p k hj hk v failed job.status.state refl u (λ c. cc) (λ c. cc) n

  send_schedule-phase : (q : JobPool) → phase k (send_schedule q) ≡ phase k q
  unfolding send_schedule
  send_schedule-phase q = ground arith

  sync_found-phase :
      (c : Option IntegrationJob)
      → known (key_of job) p.job_map ≡ state_of c
      → job.status.state ≢ unset
      → phase k (sync_found compare c job (holding compare job p k hj hk v))
        ≡ updated compare job p k hj hk v (next_phase job.status.state (phase k p))
  unfolding sync_found
  sync_found-phase none n u =
      send_schedule-phase (put_new compare job.status.state job (holding compare job p k hj hk v))
      ∙ put_new-phase compare job p k hj hk v job.status.state refl u n
  sync_found-phase (some candidate) n u =
      elim (Bool-cases (candidate.status.state == job.status.state)) [
        | inl same ↦
            let q = (state_beq_iff candidate.status.state job.status.state).0 same in
            rw same (same-phase compare job p k hj hk v job.status.state refl u (n ∙ ap some q))
        | inr moved ↦ rw moved (
            move-phase candidate.status.state u
              (λ q. cc (moved, (state_beq_iff candidate.status.state job.status.state).1 q)) n)
      ]

  -- On a consistent pool, where neither namespace has an underscore, a notification moves the phase of its job, by the state that the job has and by
  -- whether it is deleted, as the automaton does, and leaves the phase of every other job alone.
  pub sync_job-phase : phase k (sync_job compare job p) ≡ (
      if key_of job == k
      then notified job.status.state (has_deletion job.deletion_timestamp) (phase k p)
      else phase k p)
  unfolding sync_job node_id
  sync_job-phase = elim (Bool-cases (job.status.state == unset)) [
    | inl e ↦ ground (arith, e)
    | inr e ↦
        let u : job.status.state ≢ unset =
          λ q. cc (e, (state_beq_iff job.status.state unset).1 q) in
        ground (
          arith,
          e,
          dismiss-phase compare job p k hj hk v,
          sync_found-phase (get (id_of (key_of job)) p.job_map) refl u,
        )
  ]
