-- ===== src/PeriodicTrigger.antt =====
-- pkg/periodictrigger/periodic_trigger.go: one tick of the trigger. A result `none` is a panic. The random id of the n-th
-- generated job is `ids n`. The errors of the cron's synchronisation are only logged.
pub mod Latest
pub mod Created
use cicd_operator.Base.{
  ltb, if◌then◌else◌, ◌==◌, nat_eq, length, Str, str, str_eq, slice_to, Map, get, put, pos, negsuc,
  ℕ, zero, suc, refl, ◌⊎◌, inl, inr, Bool, true, false, ◌&&◌, Option, none, some, List, [], ◌∷◌,
  ◌++◌, arith,
}
use cicd_operator.Api.{
  unset, JobType, periodic, Job, Periodic, JobSpec, IntegrationJob, IntegrationConfig, get_duration,
  is_completed,
}
use cicd_operator.Dispatcher.{generate_labels}
use cicd_operator.Cron.{Agent, Cron, sync_integration_config, queued_jobs}
use cicd_operator.Structs.Graph.{mem_str}

-- `a.After(b)` of two start times, either of which may be a nil pointer.
unfoldable pub started_after : Option ℕ → Option ℕ → Option Bool
started_after (some s) (some t) = some (ltb t s)
started_after _ _ = none

unfoldable pub is_periodic : JobType → Bool
is_periodic periodic = true
is_periodic _ = false

-- The name under which a job is looked up: that of its first job.
unfoldable pub job_name : IntegrationJob → Option Str
job_name ij = elim ij.spec.jobs [ [] ↦ none | j ∷ jobs ↦ some j.name ]

-- One turn of the loop.
unfoldable pub note_latest :
    IntegrationJob → Map Str IntegrationJob → Option (Map Str IntegrationJob)
unfolding job_name started_after get put
note_latest ij latest = elim (job_name ij) [
  | none ↦ none
  | some name ↦ elim (get name latest) [
    | none ↦ some (put name ij latest)
    | some old ↦ elim (started_after ij.status.start_time old.status.start_time) [
      | none ↦ none
      | some after ↦ some (if after then put name ij latest else latest)
    ]
  ]
]

unfoldable pub latest_from :
    List IntegrationJob → Map Str IntegrationJob → Option (Map Str IntegrationJob)
unfolding note_latest is_periodic
latest_from [] latest = some latest
latest_from (ij ∷ ijs) latest =
    if is_periodic ij.spec.config_ref.type
    then (elim (note_latest ij latest) [ none ↦ none | some m ↦ latest_from ijs m ])
    else latest_from ijs latest

-- `getLatestIntegrationJobsPeriodic`
unfoldable pub get_latest : List IntegrationJob → Option (Map Str IntegrationJob)
unfolding latest_from
get_latest ijs = latest_from ijs []

-- A job is created unless there is a latest one that has not completed.
unfoldable pub should_trigger : Option IntegrationJob → Bool
unfolding is_completed
should_trigger none = true
should_trigger (some j) = is_completed j

module _ (ttl : ℕ) (config : IntegrationConfig) where
  unfoldable pub periodic_spec : Job → Str → JobSpec
  unfolding get_duration
  periodic_spec job job_id = record {
    config_ref = record { name = config.name; type = periodic };
    id = job_id;
    workspaces = config.workspaces;
    jobs = job ∷ [];
    refs = record {
      repository = config.git.repository;
      link = [];
      sender = some (record { name = []; email = [] });
      base = record { ref = []; link = []; sha = [] };
      pulls = none;
    };
    timeout = get_duration ttl config;
    param_config = config.param_config;
  }

  unfoldable pub periodic_job : Job → Str → Str → IntegrationJob
  unfolding periodic_spec
  periodic_job job job_id short = record {
    name = config.name ++ (str "-periodic-" ++ (job.name ++ (b'-' ∷ short)));
    namespace = config.namespace;
    labels = generate_labels config.name job_id;
    creation_timestamp = 0;
    deletion_timestamp = none;
    finalizers = [];
    spec = periodic_spec job job_id;
    status = record {
      state = unset;
      message = [];
      start_time = none;
      completion_time = none;
      jobs = [];
    };
  }

  unfoldable pub generate_periodic : Job → Str → Option IntegrationJob
  unfolding periodic_job slice_to
  generate_periodic job job_id = elim (slice_to 5 job_id) [
    | none ↦ none
    | some short ↦ some (periodic_job job job_id short)
  ]

  -- The loop of `sync`: the jobs asked for, latest first. A periodic job without a cron string ends it.
  unfoldable pub trigger_all :
      (ℕ → Str)
      → Map Str IntegrationJob
      → List Str
      → List Periodic
      → List IntegrationJob
      → Option (List IntegrationJob × Bool)
  unfolding should_trigger generate_periodic get
  trigger_all ids latest triggers [] made = some (made, false)
  trigger_all ids latest triggers (p ∷ l) made =
      if p.cron == []
      then some (made, true)
      else if mem_str p.job.name triggers && should_trigger (get p.job.name latest)
      then (elim (generate_periodic p.job (ids (length made))) [
        | none ↦ none
        | some ij ↦ trigger_all ids latest triggers l (ij ∷ made)
      ])
      else trigger_all ids latest triggers l made

  -- The errors that the creations met; none where the loop was ended.
  unfoldable pub refusals : (IntegrationJob → Option Str) → List IntegrationJob → List Str
  refusals create [] = []
  refusals create (j ∷ l) =
      let rest = refusals create l in elim (create j) [ none ↦ rest | some e ↦ rest ++ e ∷ [] ]

  unfoldable pub sync_errors :
      (IntegrationJob → Option Str) → List IntegrationJob × Bool → List IntegrationJob × List Str
  unfolding refusals
  sync_errors create (made, ended) = (made, if ended then [] else refusals create made)

  module _ {State : Type 0} (agent : Agent State) where
    -- `sync`: the cron it leaves, and the jobs it asks for with their errors.
    unfoldable pub sync :
        (ℕ → Str)
        → (IntegrationJob → Option Str)
        → Str ⊎ List IntegrationJob
        → Cron State
        → Option (Cron State × (List IntegrationJob × List Str))
    sync ids create (inl e) cron = some (cron, ([], e ∷ []))
    sync ids create (inr ijs) cron = elim (get_latest ijs) [
      | none ↦ none
      | some latest ↦
          let (names, cron') =
            queued_jobs agent (sync_integration_config agent config.jobs.periodic_jobs cron).1 in
          elim (trigger_all ids latest names config.jobs.periodic_jobs []) [
            | none ↦ none
            | some r ↦ some (cron', sync_errors create r)
          ]
    ]
