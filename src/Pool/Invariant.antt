-- ===== src/Pool/Invariant.antt =====
-- pkg/scheduler/pool/pool.go: the lists are views of the map, and no job is listed twice.
use cicd_operator.Base.{
  Bool-cases, ◌==◌, nat_eq, str_eq, get, ◌≡◌, refl, ap, ◌∙◌, ◌≢◌, inl, inr, Bool, false, Option,
  none, some, arith,
}
use cicd_operator.Api.{
  JobState, unset, pending, running, completed, failed, state_eq, state_beq_iff, IntegrationJob,
}
use cicd_operator.Structs.Queue.Keys.{delete-Unique, add-Unique}
use cicd_operator.Pool.{
  node_id, equals, JobPool, send_schedule, put_new, move, sync_found, dismiss, sync_job,
}
use cicd_operator.Pool.Keys.{key_of, key_eq, equals-key, NoUnderscore, id_of}
use cicd_operator.Pool.Listing.{
  listed, known, state_of, Inv, stored, not_listed, Listing-stored, Listing-added, Listing-deleted,
  Listing-forgotten, Listing-unlisted, Listing-same,
}

module _ (compare : IntegrationJob → IntegrationJob → Bool) (job : IntegrationJob)
    (p : JobPool) where
  module _ (hj : NoUnderscore job.namespace) (v : Inv p) where
    abbrev holding : JobPool
    holding = record p { job_map = stored job p hj }

    -- The invariant does not see the timers, and a scheduling token is within the channel.
    send_schedule-Inv : (q : JobPool) → Inv q → Inv (send_schedule q)
    unfolding send_schedule
    send_schedule-Inv q w = record {
      pending_listed = ground (arith, w.pending_listed);
      running_listed = ground (arith, w.running_listed);
      pending_distinct = ground arith;
      running_distinct = ground arith;
      bounded = ground arith;
    }

    not_pending :
        known (key_of job) p.job_map ≢ some pending → listed (key_of job) p.pending_jobs ≡ false
    not_pending n = not_listed job p hj pending p.pending_jobs v.pending_listed n

    not_running :
        known (key_of job) p.job_map ≢ some running → listed (key_of job) p.running_jobs ≡ false
    not_running n = not_listed job p hj running p.running_jobs v.running_listed n

    idle-Inv :
        known (key_of job) p.job_map ≢ some pending
        → known (key_of job) p.job_map ≢ some running
        → Inv holding
    idle-Inv np nr = record {
      pending_listed =
          Listing-stored job p hj pending p.pending_jobs v.pending_listed (not_pending np);
      running_listed =
          Listing-stored job p hj running p.running_jobs v.running_listed (not_running nr);
      pending_distinct = v.pending_distinct;
      running_distinct = v.running_distinct;
      bounded = v.bounded;
    }

    put_new-Inv :
        (s : JobState)
        → job.status.state ≡ s
        → known (key_of job) p.job_map ≡ none
        → Inv (put_new compare s job holding)
    unfolding put_new
    put_new-Inv pending e n = record {
      pending_listed =
          Listing-added job p hj pending (some compare) p.pending_jobs v.pending_listed
            (not_pending (rw n (λ c. cc))) e;
      running_listed =
          Listing-stored job p hj running p.running_jobs v.running_listed
            (not_running (rw n (λ c. cc)));
      pending_distinct =
          add-Unique equals key_of equals-key (some compare) job p.pending_jobs
            (not_pending (rw n (λ c. cc))) v.pending_distinct;
      running_distinct = v.running_distinct;
      bounded = v.bounded;
    }
    put_new-Inv running e n = record {
      pending_listed =
          Listing-stored job p hj pending p.pending_jobs v.pending_listed
            (not_pending (rw n (λ c. cc)));
      running_listed =
          Listing-added job p hj running none p.running_jobs v.running_listed
            (not_running (rw n (λ c. cc))) e;
      pending_distinct = v.pending_distinct;
      running_distinct =
          add-Unique equals key_of equals-key none job p.running_jobs (not_running (rw n (λ c. cc)))
            v.running_distinct;
      bounded = v.bounded;
    }
    put_new-Inv _ e n = idle-Inv (rw n (λ c. cc)) (rw n (λ c. cc))

    -- A job that was pending leaves the pending list, and enters the running one if it runs.
    from_pending-Inv :
        (s : JobState)
        → job.status.state ≡ s
        → known (key_of job) p.job_map ≡ some pending
        → Inv (move compare pending s job holding)
    unfolding move
    from_pending-Inv running e n = record {
      pending_listed =
          Listing-deleted job p hj pending p.pending_jobs v.pending_listed v.pending_distinct;
      running_listed =
          Listing-added job p hj running none p.running_jobs v.running_listed
            (not_running (rw n (λ c. cc))) e;
      pending_distinct =
          delete-Unique equals key_of equals-key job p.pending_jobs v.pending_distinct;
      running_distinct =
          add-Unique equals key_of equals-key none job p.running_jobs (not_running (rw n (λ c. cc)))
            v.running_distinct;
      bounded = v.bounded;
    }
    from_pending-Inv _ e n = record {
      pending_listed =
          Listing-deleted job p hj pending p.pending_jobs v.pending_listed v.pending_distinct;
      running_listed =
          Listing-stored job p hj running p.running_jobs v.running_listed
            (not_running (rw n (λ c. cc)));
      pending_distinct =
          delete-Unique equals key_of equals-key job p.pending_jobs v.pending_distinct;
      running_distinct = v.running_distinct;
      bounded = v.bounded;
    }

    -- A job that was running leaves the running list; it is forgotten unless it is pending again.
    from_running-Inv :
        (s : JobState)
        → job.status.state ≡ s
        → known (key_of job) p.job_map ≡ some running
        → Inv (move compare running s job holding)
    unfolding move
    from_running-Inv pending e n = send_schedule-Inv _ (record {
      pending_listed =
          Listing-added job p hj pending (some compare) p.pending_jobs v.pending_listed
            (not_pending (rw n (λ c. cc))) e;
      running_listed =
          Listing-deleted job p hj running p.running_jobs v.running_listed v.running_distinct;
      pending_distinct =
          add-Unique equals key_of equals-key (some compare) job p.pending_jobs
            (not_pending (rw n (λ c. cc))) v.pending_distinct;
      running_distinct =
          delete-Unique equals key_of equals-key job p.running_jobs v.running_distinct;
      bounded = v.bounded;
    })
    from_running-Inv _ e n = send_schedule-Inv _ (record {
      pending_listed =
          Listing-unlisted job p hj pending p.pending_jobs v.pending_listed
            (not_pending (rw n (λ c. cc)));
      running_listed =
          Listing-forgotten job p hj running p.running_jobs v.running_distinct v.running_listed;
      pending_distinct = v.pending_distinct;
      running_distinct =
          delete-Unique equals key_of equals-key job p.running_jobs v.running_distinct;
      bounded = v.bounded;
    })

    move-Inv :
        (old s : JobState)
        → job.status.state ≡ s
        → known (key_of job) p.job_map ≡ some old
        → Inv (move compare old s job holding)
    unfolding move
    move-Inv pending s e n = from_pending-Inv s e n
    move-Inv running s e n = from_running-Inv s e n
    move-Inv unset s e n = idle-Inv (rw n (λ c. cc)) (rw n (λ c. cc))
    move-Inv completed s e n = idle-Inv (rw n (λ c. cc)) (rw n (λ c. cc))
    move-Inv failed s e n = idle-Inv (rw n (λ c. cc)) (rw n (λ c. cc))

    dismiss-Inv : Inv (dismiss job holding)
    unfolding dismiss
    dismiss-Inv = send_schedule-Inv _ (record {
      pending_listed =
          Listing-forgotten job p hj pending p.pending_jobs v.pending_distinct v.pending_listed;
      running_listed =
          Listing-forgotten job p hj running p.running_jobs v.running_distinct v.running_listed;
      pending_distinct =
          delete-Unique equals key_of equals-key job p.pending_jobs v.pending_distinct;
      running_distinct =
          delete-Unique equals key_of equals-key job p.running_jobs v.running_distinct;
      bounded = v.bounded;
    })

    sync_found-Inv :
        (c : Option IntegrationJob)
        → known (key_of job) p.job_map ≡ state_of c
        → Inv (sync_found compare c job holding)
    unfolding sync_found
    sync_found-Inv none e = send_schedule-Inv _ (put_new-Inv job.status.state refl e)
    sync_found-Inv (some candidate) e =
        elim (Bool-cases (candidate.status.state == job.status.state)) [
          | inl same ↦
              rw same (kept ((state_beq_iff candidate.status.state job.status.state).0 same))
          | inr moved ↦ rw moved (move-Inv candidate.status.state job.status.state refl e)
        ]
      where
        kept : candidate.status.state ≡ job.status.state → Inv holding
        kept same = record {
          pending_listed =
              Listing-same job p hj pending p.pending_jobs v.pending_listed (e ∙ ap some same);
          running_listed =
              Listing-same job p hj running p.running_jobs v.running_listed (e ∙ ap some same);
          pending_distinct = v.pending_distinct;
          running_distinct = v.running_distinct;
          bounded = v.bounded;
        }

  -- A notification of a job whose namespace has no underscore keeps the pool consistent.
  pub sync_job-Inv : NoUnderscore job.namespace → Inv p → Inv (sync_job compare job p)
  unfolding sync_job node_id
  sync_job-Inv hj v =
      ground
        (arith, v, dismiss-Inv hj v, sync_found-Inv hj v (get (id_of (key_of job)) p.job_map) refl)
