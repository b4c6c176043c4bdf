-- ===== src/Collector.antt =====
-- pkg/collector/collector.go: the deletion of old jobs, and its place in a cron of its own. The cron library is that of
-- Cron; the function of the entry has the name `collect`. Times are in nanoseconds.
pub mod Stalled
use cicd_operator.Base.{
  if◌then◌else◌, ltb, ◌==◌, nat_eq, Str, str, str_eq, ℕ, ◌+◌, ◌*◌, Bool, true, false, Option, none,
  some, List, [], ◌∷◌, ◌++◌,
}
use cicd_operator.Api.{IntegrationJob}
use cicd_operator.Cron.{Added, added, refused, Agent}
use cicd_operator.GitClient.{Result, ok, err}

-- The collector, with whether its cron is running.
pub record Collector (State : Type 0) : Type 0 where
  pub cron : State
  pub cron_spec : Str
  pub cron_id : ℕ
  pub is_running : Bool

-- `itoa` is strconv.Itoa.
unfoldable pub parse_gc_period : (ℕ → Str) → ℕ → Str
parse_gc_period itoa hours = str "@every " ++ (itoa hours ++ str "h")

-- A job that completed longer ago than the time to live, in hours.
unfoldable pub is_garbage : ℕ → ℕ → IntegrationJob → Bool
is_garbage ttl now j = elim j.status.completion_time [
  | none ↦ false
  | some t ↦ ltb (t + ttl * 3600000000000) now
]

-- The jobs whose deletion is asked for; an error of one deletion is only logged.
unfoldable pub collect_jobs : ℕ → ℕ → List IntegrationJob → List IntegrationJob
unfolding is_garbage
collect_jobs ttl now [] = []
collect_jobs ttl now (j ∷ l) =
    let rest = collect_jobs ttl now l in if is_garbage ttl now j then j ∷ rest else rest

unfoldable pub collect_garbage : ℕ → ℕ → Result (List IntegrationJob) → List IntegrationJob
unfolding collect_jobs
collect_garbage ttl now (err e) = []
collect_garbage ttl now (ok l) = collect_jobs ttl now l

module _ {State : Type 0} (agent : Agent State) where
  unfoldable pub from_added : Str → Added × State → Option (Collector State)
  from_added period (refused e, s) = none
  from_added period (added id, s) =
      some (record { cron = s; cron_spec = period; cron_id = id; is_running = false })

  -- `New`, with a cron that has just been made.
  unfoldable pub new_collector : Str → State → Option (Collector State)
  unfolding from_added
  new_collector period s = from_added period (agent.add_func period (str "collect") s)

  -- `Start`, up to its loop.
  unfoldable pub start_collector : Collector State → Collector State
  start_collector c = record c { is_running = true }

  -- Stop, and remove the entry.
  unfoldable pub stop_old : Str → Collector State → Collector State
  stop_old period c = record c {
    is_running = false;
    cron_spec = period;
    cron = agent.remove c.cron_id c.cron;
  }

  unfoldable pub start_new : Collector State → Added × State → Collector State × Option Str
  start_new c (added id, s) = (record c { cron = s; cron_id = id; is_running = true }, none)
  start_new c (refused e, s) = (record c { cron = s }, some e)

  -- `reconfigure`: the collector, and the error. When an entry is added it is run once at once.
  unfoldable pub reconfigure : Str → Collector State → Collector State × Option Str
  unfolding stop_old start_new
  reconfigure period c =
      if c.cron_spec == period
      then (c, none)
      else start_new (stop_old period c)
          (agent.add_func period (str "collect") (stop_old period c).cron)
