-- ===== src/Cron.antt =====
-- pkg/cron/cron.go. The cron library is a parameter: its entries, each an id with its cron string and the name of the
-- job that its function marks. The order in which `range` visits a map is that of the list.
pub mod Preserved
pub mod Live
pub mod Linked
pub mod Registered
pub mod Stale
use cicd_operator.Base.{
  if◌then◌else◌, ◌==◌, nat_eq, filterb, All, Str, str, str_eq, has_prefix, sort_strings, Map, get,
  put, del, pos, negsuc, ℕ, zero, suc, ◌≡◌, refl, ◌≢◌, Bool, true, false, not, Option, none, some,
  List, [], ◌∷◌, ◌++◌, arith,
}
use cicd_operator.Api.{Periodic}
use cicd_operator.Structs.Graph.{mem_str}

pub data Added : Type 0 where
  added : ℕ → Added
  refused : Str → Added

-- What the cron library does: an added entry has an id that no other has.
pub record Agent (State : Type 0) : Type 0 where
  pub entries : State → List (ℕ × Str × Str)
  pub add_func : Str → Str → State → Added × State
  pub remove : ℕ → State → State
  pub entries-added :
      (spec name : Str) (s : State) (id : ℕ)
      → (add_func spec name s).0 ≡ added id
      → (entries (add_func spec name s).1 ≡ (id, spec, name) ∷ entries s)
        × All (λ e. e.0 ≢ id) (entries s)
  pub entries-refused :
      (spec name : Str) (s : State) (text : Str)
      → (add_func spec name s).0 ≡ refused text
      → entries (add_func spec name s).1 ≡ entries s
  pub entries-remove :
      (id : ℕ) (s : State) → entries (remove id s) ≡ filterb (λ e. not (e.0 == id)) (entries s)

-- `jobStatus`
pub record CronJob : Type 0 where
  pub entry_id : ℕ
  pub triggered : Bool
  pub cron_str : Str

pub record Cron (State : Type 0) : Type 0 where
  pub cron_agent : State
  pub jobs : Map Str CronJob

unfoldable pub cron_keys : Map Str CronJob → List Str
cron_keys [] = []
cron_keys ((k, j) ∷ m) = k ∷ cron_keys m

unfoldable pub triggered_in : Map Str CronJob → List Str
triggered_in [] = []
triggered_in ((k, j) ∷ m) = let rest = triggered_in m in if j.triggered then k ∷ rest else rest

unfoldable pub reset : Map Str CronJob → Map Str CronJob
reset [] = []
reset ((k, j) ∷ m) = (k, record j { triggered = false }) ∷ reset m

unfoldable pub periodic_names : List Periodic → List Str
periodic_names [] = []
periodic_names (p ∷ l) = p.job.name ∷ periodic_names l

module _ {State : Type 0} (agent : Agent State) where
  unfoldable pub queued_jobs : Cron State → List Str × Cron State
  unfolding triggered_in reset
  queued_jobs c = (triggered_in c.jobs, record c { jobs = reset c.jobs })

  unfoldable pub has_job : Str → Cron State → Bool
  unfolding get
  has_job name c = elim (get name c.jobs) [ none ↦ false | some j ↦ true ]

  -- The function of an entry; none is a nil pointer that is followed.
  unfoldable pub fire : Str → Cron State → Option (Cron State)
  unfolding get put
  fire name c = elim (get name c.jobs) [
    | none ↦ none
    | some j ↦ some (record c { jobs = put name (record j { triggered = true }) c.jobs })
  ]

  -- An operation's error, and the state that it leaves.
  unfoldable pub remove_job : Str → Cron State → Option Str × Cron State
  unfolding get del
  remove_job name c = elim (get name c.jobs) [
    | none ↦ (some (str "job " ++ (name ++ str " has not been added to cronAgent yet")), c)
    | some j ↦
        (none, record { cron_agent = agent.remove j.entry_id c.cron_agent; jobs = del name c.jobs })
  ]

  unfoldable pub register : Str → Str → Added → State → Map Str CronJob → Option Str × Cron State
  unfolding put has_prefix
  register name cron (refused text) s jobs = (
    some (
        str "cronAgent fails to add job "
        ++ (name ++ (str " with cron " ++ (cron ++ (str ": " ++ text))))),
    record { cron_agent = s; jobs = jobs },
  )
  register name cron (added id) s jobs = (
    none,
    record {
      cron_agent = s;
      jobs =
          put name
            (record { entry_id = id; triggered = has_prefix cron (str "@every"); cron_str = cron })
            jobs;
    },
  )

  unfoldable pub add_job : Str → Str → Cron State → Option Str × Cron State
  unfolding register
  add_job name cron c =
      let (r, s) = agent.add_func (str "TZ=UTC " ++ cron) name c.cron_agent in
      register name cron r s c.jobs

  -- The next operation, unless there is an error.
  unfoldable pub unless_error :
      Option Str × Cron State → (Cron State → Option Str × Cron State) → Option Str × Cron State
  unless_error (some e, c) next = (some e, c)
  unless_error (none, c) next = next c

  unfoldable pub add_periodic : Periodic → Cron State → Option Str × Cron State
  unfolding get remove_job add_job unless_error
  add_periodic p c = if p.cron == [] then (none, c) else elim (get p.job.name c.jobs) [
    | none ↦ add_job p.job.name p.cron c
    | some j ↦
        if j.cron_str == p.cron
        then (none, c)
        else unless_error (remove_job p.job.name c) (add_job p.job.name p.cron)
  ]

  unfoldable pub add_periodics : List Periodic → Cron State → Option Str × Cron State
  unfolding add_periodic unless_error
  add_periodics [] c = (none, c)
  add_periodics (p ∷ l) c = unless_error (add_periodic p c) (add_periodics l)

  unfoldable pub remove_jobs : List Str → Cron State → List Str × Cron State
  unfolding remove_job
  remove_jobs [] c = ([], c)
  remove_jobs (name ∷ l) c =
      let (e, c') = remove_job name c in
      let (errors, c'') = remove_jobs l c' in (elim e [ none ↦ errors | some t ↦ t ∷ errors ], c'')

  -- The names of the jobs that are no periodic jobs any more, sorted.
  unfoldable pub stale : List Periodic → Map Str CronJob → List Str
  unfolding cron_keys periodic_names sort_strings
  stale periodics jobs =
      sort_strings (filterb (λ k. not (mem_str k (periodic_names periodics))) (cron_keys jobs))

  unfoldable pub remove_stale : List Periodic → Option Str × Cron State → List Str × Cron State
  unfolding remove_jobs stale
  remove_stale periodics (some e, c) = (e ∷ [], c)
  remove_stale periodics (none, c) = remove_jobs (stale periodics c.jobs) c

  -- `SyncIntegrationConfig`, with its errors.
  unfoldable pub sync_integration_config : List Periodic → Cron State → List Str × Cron State
  unfolding add_periodics remove_stale
  sync_integration_config periodics c = remove_stale periodics (add_periodics periodics c)
