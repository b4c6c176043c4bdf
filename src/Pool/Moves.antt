-- ===== src/Pool/Moves.antt =====
-- pkg/scheduler/pool/pool.go: what each of the moves of a job between the lists does to the phases.
use cicd_operator.Base.{
  if◌then◌else◌, Bool-cases, ◌==◌, nat_eq, Str, str_eq, Map, put, del, ◌≡◌, refl, sym, ◌∙◌, ◌≢◌,
  inl, inr, Bool, true, false, ◌||◌, Option, none, some, List, arith,
}
use mathlib.Core.Path.{subst}
use cicd_operator.Api.{
  JobState, unset, pending, running, completed, failed, state_eq, IntegrationJob,
}
use cicd_operator.Structs.Queue.{add, delete}
use cicd_operator.Structs.Queue.Keys.{has-delete, has-add}
use cicd_operator.Pool.{
  JobPool, node_id, equals, send_schedule, add_running, del_pending, del_running, manage_timeout,
  dismiss, add_pending, put_new, move,
}
use cicd_operator.Pool.Keys.{JobKey, key_of, key_eq, key_beq_iff, equals-key, NoUnderscore}
use cicd_operator.Pool.Listing.{listed, Distinct, known, Inv, known-put, known-del}
use cicd_operator.Pool.Phase.{Phase, absent, next_phase, phase}

module _ (compare : IntegrationJob → IntegrationJob → Bool) (job : IntegrationJob) (p : JobPool)
    (k : JobKey) (hj : NoUnderscore job.namespace) (hk : NoUnderscore k.namespace) (v : Inv p) where
  abbrev stored : Map Str IntegrationJob
  stored = put (node_id job) job p.job_map

  abbrev pub holding : JobPool
  holding = record p { job_map = stored }

  own-put : known k stored ≡ (if key_of job == k then some job.status.state else known k p.job_map)
  own-put = known-put job k p.job_map hj hk

  own-del :
      known k (del (node_id job) stored) ≡ (if key_of job == k then none else known k p.job_map)
  own-del = ground (arith, known-del job k stored hj hk, own-put)

  abbrev pub updated : Phase → Phase
  updated ph = if key_of job == k then ph else phase k p

  pub dismiss-phase : phase k (dismiss job holding) ≡ updated absent
  unfolding dismiss del_pending del_running send_schedule
  dismiss-phase = ground (
    arith,
    own-del,
    has-delete equals key_of equals-key job k p.pending_jobs v.pending_distinct,
    has-delete equals key_of equals-key job k p.running_jobs v.running_distinct,
  )

  -- The facts at the key of the job: which list may hold it, and what an addition or a deletion does.
  unlisted_pending :
      (o : Option JobState)
      → known (key_of job) p.job_map ≡ o
      → o ≢ some pending
      → listed (key_of job) p.pending_jobs ≡ false
  unlisted_pending o e n = elim (Bool-cases (listed (key_of job) p.pending_jobs)) [
    | inl y ↦ absurd (n (sym e ∙ v.pending_listed (key_of job) hj y))
    | inr y ↦ y
  ]

  unlisted_running :
      (o : Option JobState)
      → known (key_of job) p.job_map ≡ o
      → o ≢ some running
      → listed (key_of job) p.running_jobs ≡ false
  unlisted_running o e n = elim (Bool-cases (listed (key_of job) p.running_jobs)) [
    | inl y ↦ absurd (n (sym e ∙ v.running_listed (key_of job) hj y))
    | inr y ↦ y
  ]

  added :
      (c : Option (IntegrationJob → IntegrationJob → Bool)) (l : List IntegrationJob)
      → listed (key_of job) l ≡ false
      → listed k (add equals c job l) ≡ (key_of job == k || listed k l)
  added c l h = has-add equals key_of equals-key c job k l h

  deleted :
      (l : List IntegrationJob)
      → Distinct l
      → listed k (delete equals job l) ≡ (if key_of job == k then false else listed k l)
  deleted l u = has-delete equals key_of equals-key job k l u

  at_key : (Q : JobKey → Type 0) → Q (key_of job) → (key_of job == k) ≡ true → Q k
  at_key Q q e = subst Q ((key_beq_iff (key_of job) k).0 e) q

  free_pending :
      (o : Option JobState)
      → known (key_of job) p.job_map ≡ o
      → o ≢ some pending
      → (key_of job == k) ≡ true
      → listed k p.pending_jobs ≡ false
  free_pending o e n = at_key (λ x. listed x p.pending_jobs ≡ false) (unlisted_pending o e n)

  free_running :
      (o : Option JobState)
      → known (key_of job) p.job_map ≡ o
      → o ≢ some running
      → (key_of job == k) ≡ true
      → listed k p.running_jobs ≡ false
  free_running o e n = at_key (λ x. listed x p.running_jobs ≡ false) (unlisted_running o e n)

  known_at :
      (o : Option JobState)
      → known (key_of job) p.job_map ≡ o
      → (key_of job == k) ≡ true
      → known k p.job_map ≡ o
  known_at o = at_key (λ x. known x p.job_map ≡ o)

  pub put_new-phase :
      (s : JobState)
      → job.status.state ≡ s
      → s ≢ unset
      → known (key_of job) p.job_map ≡ none
      → phase k (put_new compare s job holding) ≡ updated (next_phase s (phase k p))
  unfolding put_new add_pending add_running manage_timeout
  put_new-phase s e u n =
      by_state s e u (free_pending none n (λ c. cc)) (free_running none n (λ c. cc))
    where
      by_state :
          (s : JobState)
          → job.status.state ≡ s
          → s ≢ unset
          → ((key_of job == k) ≡ true → listed k p.pending_jobs ≡ false)
          → ((key_of job == k) ≡ true → listed k p.running_jobs ≡ false)
          → phase k (put_new compare s job holding) ≡ updated (next_phase s (phase k p))
      by_state unset e u np nr = absurd (u refl)
      by_state pending e u np nr = ground (
        arith,
        own-put,
        known_at none n,
        added (some compare) p.pending_jobs (unlisted_pending none n (λ c. cc)),
      )
      by_state running e u np nr = ground (
        arith,
        own-put,
        known_at none n,
        added none p.running_jobs (unlisted_running none n (λ c. cc)),
      )
      by_state completed e u np nr = ground (arith, own-put, known_at none n)
      by_state failed e u np nr = ground (arith, own-put, known_at none n)

  pub from_pending-phase :
      (s : JobState)
      → job.status.state ≡ s
      → s ≢ unset
      → s ≢ pending
      → known (key_of job) p.job_map ≡ some pending
      → phase k (move compare pending s job holding) ≡ updated (next_phase s (phase k p))
  unfolding move del_pending add_running
  from_pending-phase s e u m n = by_state s e u m (free_running (some pending) n (λ c. cc))
    where
      by_state :
          (s : JobState)
          → job.status.state ≡ s
          → s ≢ unset
          → s ≢ pending
          → ((key_of job == k) ≡ true → listed k p.running_jobs ≡ false)
          → phase k (move compare pending s job holding) ≡ updated (next_phase s (phase k p))
      by_state unset e u m nr = absurd (u refl)
      by_state pending e u m nr = absurd (m refl)
      by_state running e u m nr = ground (
        arith,
        own-put,
        known_at (some pending) n,
        deleted p.pending_jobs v.pending_distinct,
        added none p.running_jobs (unlisted_running (some pending) n (λ c. cc)),
      )
      by_state completed e u m nr =
          ground
            (arith, own-put, known_at (some pending) n, deleted p.pending_jobs v.pending_distinct)
      by_state failed e u m nr =
          ground
            (arith, own-put, known_at (some pending) n, deleted p.pending_jobs v.pending_distinct)

  pub from_running-phase :
      (s : JobState)
      → job.status.state ≡ s
      → s ≢ unset
      → s ≢ running
      → known (key_of job) p.job_map ≡ some running
      → phase k (move compare running s job holding) ≡ updated (next_phase s (phase k p))
  unfolding move del_running add_pending send_schedule
  from_running-phase s e u m n = by_state s e u m (free_pending (some running) n (λ c. cc))
    where
      by_state :
          (s : JobState)
          → job.status.state ≡ s
          → s ≢ unset
          → s ≢ running
          → ((key_of job == k) ≡ true → listed k p.pending_jobs ≡ false)
          → phase k (move compare running s job holding) ≡ updated (next_phase s (phase k p))
      by_state unset e u m np = absurd (u refl)
      by_state running e u m np = absurd (m refl)
      by_state pending e u m np = ground (
        arith,
        own-put,
        known_at (some running) n,
        deleted p.running_jobs v.running_distinct,
        added (some compare) p.pending_jobs (unlisted_pending (some running) n (λ c. cc)),
      )
      by_state completed e u m np =
          ground
            (arith, own-del, known_at (some running) n, deleted p.running_jobs v.running_distinct)
      by_state failed e u m np =
          ground
            (arith, own-del, known_at (some running) n, deleted p.running_jobs v.running_distinct)

  -- A job known in another state changes it, and stands in no list.
  pub idle-phase :
      (old s : JobState)
      → job.status.state ≡ s
      → s ≢ unset
      → old ≢ pending
      → old ≢ running
      → known (key_of job) p.job_map ≡ some old
      → phase k holding ≡ updated (next_phase s (phase k p))
  idle-phase old s e u a b n =
      by_state old s e u a b (known_at (some old) n)
        (free_pending (some old) n (λ c. a (ground arith)))
        (free_running (some old) n (λ c. b (ground arith)))
    where
      by_state :
          (old s : JobState)
          → job.status.state ≡ s
          → s ≢ unset
          → old ≢ pending
          → old ≢ running
          → ((key_of job == k) ≡ true → known k p.job_map ≡ some old)
          → ((key_of job == k) ≡ true → listed k p.pending_jobs ≡ false)
          → ((key_of job == k) ≡ true → listed k p.running_jobs ≡ false)
          → phase k holding ≡ updated (next_phase s (phase k p))
      by_state old s e u a b n np nr = ground (arith, own-put)

  -- A job whose state is the same keeps its phase.
  pub same-phase :
      (s : JobState)
      → job.status.state ≡ s
      → s ≢ unset
      → known (key_of job) p.job_map ≡ some s
      → phase k holding ≡ updated (next_phase s (phase k p))
  same-phase unset e u n = absurd (u refl)
  same-phase pending e u n =
      ground (arith, own-put, known_at (some pending) n, free_running (some pending) n (λ c. cc))
  same-phase running e u n =
      ground (arith, own-put, known_at (some running) n, free_pending (some running) n (λ c. cc))
  same-phase completed e u n = idle-phase completed completed e u (λ c. cc) (λ c. cc) n
  same-phase failed e u n = idle-phase failed failed e u (λ c. cc) (λ c. cc) n
