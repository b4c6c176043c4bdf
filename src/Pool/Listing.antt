-- ===== src/Pool/Listing.antt =====
-- pkg/scheduler/pool/pool.go: what the lists say of the map after one job is stored or forgotten.
use cicd_operator.Base.{
  if◌then◌else◌, Bool-cases, ◌==◌, nat_eq, Str, str_beq_iff, str_eq, Map, get, put, del, get-put,
  get-del, ◌≤◌, ◌≡◌, ap, ◌≢◌, inl, inr, Bool, true, false, Option, none, some, List, arith,
}
use cicd_operator.Api.{JobState, pending, running, state_eq, IntegrationJob}
use cicd_operator.Structs.Queue.{add, delete}
use cicd_operator.Structs.Queue.Keys.{has, Unique, has-delete, has-add}
use cicd_operator.Pool.{node_id, equals, JobPool}
use cicd_operator.Pool.Keys.{
  JobKey, key_of, key_eq, key_beq_iff, equals-key, NoUnderscore, id_of, id_of-injective,
}

abbrev pub listed : JobKey → List IntegrationJob → Bool
listed = has equals key_of

abbrev pub Distinct : List IntegrationJob → Type 0
Distinct = Unique equals key_of

abbrev pub state_of : Option IntegrationJob → Option JobState
state_of none = none
state_of (some j) = some j.status.state

-- The state under which the pool knows a job.
abbrev pub known : JobKey → Map Str IntegrationJob → Option JobState
known k m = state_of (get (id_of k) m)

abbrev pub Listing : JobState → List IntegrationJob → Map Str IntegrationJob → Type 0
Listing s l m = (k : JobKey) → NoUnderscore k.namespace → listed k l ≡ true → known k m ≡ some s

pub record Inv (p : JobPool) : Type 0 where
  pub pending_listed : Listing pending p.pending_jobs p.job_map
  pub running_listed : Listing running p.running_jobs p.job_map
  pub pending_distinct : Distinct p.pending_jobs
  pub running_distinct : Distinct p.running_jobs
  pub bounded : p.schedule_chan ≤ p.chan_cap

id_beq :
    (a b : JobKey)
    → NoUnderscore a.namespace
    → NoUnderscore b.namespace
    → (id_of a == id_of b) ≡ (a == b)
id_beq a b ha hb = ground (
  arith,
  str_beq_iff (id_of a) (id_of b),
  key_beq_iff a b,
  id_of-injective a b ha hb,
  ap id_of {x = a} {y = b},
)

pub known-put :
    (job : IntegrationJob) (k : JobKey) (m : Map Str IntegrationJob)
    → NoUnderscore job.namespace
    → NoUnderscore k.namespace
    → known k (put (node_id job) job m)
      ≡ (if key_of job == k then some job.status.state else known k m)
unfolding node_id
known-put job k m hj hk =
    rw (get-put (id_of (key_of job)) (id_of k) job m, id_beq (key_of job) k hj hk) (ground arith)

pub known-del :
    (job : IntegrationJob) (k : JobKey) (m : Map Str IntegrationJob)
    → NoUnderscore job.namespace
    → NoUnderscore k.namespace
    → known k (del (node_id job) m) ≡ (if key_of job == k then none else known k m)
unfolding node_id
known-del job k m hj hk =
    rw (get-del (id_of (key_of job)) (id_of k) m, id_beq (key_of job) k hj hk) (ground arith)

module _ (job : IntegrationJob) (p : JobPool) (hj : NoUnderscore job.namespace) where
  abbrev pub stored : Map Str IntegrationJob
  stored = put (node_id job) job p.job_map

  pub not_listed :
      (s : JobState) (l : List IntegrationJob)
      → Listing s l p.job_map
      → known (key_of job) p.job_map ≢ some s
      → listed (key_of job) l ≡ false
  not_listed s l h n = elim (Bool-cases (listed (key_of job) l)) [
    | inl y ↦ absurd (n (h (key_of job) hj y))
    | inr y ↦ y
  ]

  -- A listing without the job holds after its entry is stored.
  pub Listing-stored :
      (s : JobState) (l : List IntegrationJob)
      → Listing s l p.job_map
      → listed (key_of job) l ≡ false
      → Listing s l stored
  Listing-stored s l h n k hk y =
      ground (arith, known-put job k p.job_map hj hk, key_beq_iff (key_of job) k, h k hk y)

  pub Listing-added :
      (s : JobState) (c : Option (IntegrationJob → IntegrationJob → Bool)) (l : List IntegrationJob)
      → Listing s l p.job_map
      → listed (key_of job) l ≡ false
      → job.status.state ≡ s
      → Listing s (add equals c job l) stored
  Listing-added s c l h n e k hk y =
      ground (
        arith,
        known-put job k p.job_map hj hk,
        has-add equals key_of equals-key c job k l n,
        h k hk,
      )

  pub Listing-deleted :
      (s : JobState) (l : List IntegrationJob)
      → Listing s l p.job_map
      → Distinct l
      → Listing s (delete equals job l) stored
  Listing-deleted s l h u k hk y = ground (
    arith,
    known-put job k p.job_map hj hk,
    has-delete equals key_of equals-key job k l u,
    h k hk,
  )

  pub Listing-forgotten :
      (s : JobState) (l : List IntegrationJob) (u : Distinct l)
      → Listing s l p.job_map
      → Listing s (delete equals job l) (del (node_id job) stored)
  Listing-forgotten s l u h k hk y = ground (
    arith,
    known-del job k stored hj hk,
    known-put job k p.job_map hj hk,
    has-delete equals key_of equals-key job k l u,
    h k hk,
  )

  pub Listing-unlisted :
      (s : JobState) (l : List IntegrationJob)
      → Listing s l p.job_map
      → listed (key_of job) l ≡ false
      → Listing s l (del (node_id job) stored)
  Listing-unlisted s l h n k hk y = ground (
    arith,
    known-del job k stored hj hk,
    known-put job k p.job_map hj hk,
    key_beq_iff (key_of job) k,
    h k hk y,
  )

  pub Listing-same :
      (s : JobState) (l : List IntegrationJob)
      → Listing s l p.job_map
      → known (key_of job) p.job_map ≡ some job.status.state
      → Listing s l stored
  Listing-same s l h e k hk y =
      ground (arith, known-put job k p.job_map hj hk, key_beq_iff (key_of job) k, h k hk y)
