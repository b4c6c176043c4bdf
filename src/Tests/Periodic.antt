-- ===== src/Tests/Periodic.antt =====
-- pkg/collector, and pkg/cron and pkg/periodictrigger with one periodic job, and a cron library that takes every entry.
use cicd_operator.Base.{
  ◌==◌, nat_eq, filterb, In, All, Str, str, str_beq, str_eq, has_prefix, sort_strings, get, put,
  del, ℕ, suc, ◌+◌, ◌≤◌, ◌≡◌, refl, ap, ◌≢◌, true, false, not, Option, none, some, List, [], ◌∷◌,
  arith,
}
use cicd_operator.Api.{Periodic, IntegrationJob, IntegrationConfig}
use cicd_operator.Cron.{
  added, refused, Agent, CronJob, Cron, sync_integration_config, queued_jobs, periodic_names,
  add_periodics, add_periodic, unless_error, add_job, remove_job, register, remove_stale,
  remove_jobs, stale, cron_keys,
}
use cicd_operator.Cron.Live.{IsLive, sync-IsLive}
use cicd_operator.Cron.Registered.{IsDistinct, IsScheduled, sync-Registered}
use cicd_operator.Cron.Linked.{IsLinked, sync-IsLinked}
use cicd_operator.PeriodicTrigger.{periodic_job}
use cicd_operator.Structs.Graph.{mem_str}
use cicd_operator.Tests.ChatOps.{config}
use cicd_operator.Collector.{Collector, reconfigure}
use cicd_operator.Collector.Stalled.{Follows, reconfigure-Follows}
use cicd_operator.Tests.Jobs.{plain_job}

abbrev Entries : Type 0
Entries = List (ℕ × Str × Str)

-- An id that is larger than every other.
unfoldable next_id : Entries → ℕ
next_id [] = 1
next_id (e ∷ l) = e.0 + suc (next_id l)

small_ids : (n : ℕ) (l : Entries) → next_id l ≤ n → All (λ e. e.0 ≢ n) l
unfolding next_id
small_ids n [] h = tt
small_ids n (e ∷ l) h = (omega (arith, h), small_ids n l (omega (arith, h)))

added_inj : (a b : ℕ) → added a ≡ added b → a ≡ b
added_inj a b e = ground (arith, e)

added_lem :
    (spec name : Str) (s : Entries) (id : ℕ)
    → next_id s ≡ id
    → ((next_id s, spec, name) ∷ s ≡ (id, spec, name) ∷ s) × All (λ e. e.0 ≢ id) s
added_lem spec name s id e = (ap (λ n. (n, spec, name) ∷ s) e, small_ids id s (omega (arith, e)))

refused_lem : (a : ℕ) (text : Str) (s t : Entries) → added a ≡ refused text → s ≡ t
refused_lem a text s t e = ground (arith, e)

abbrev accepting : Agent Entries
accepting = record {
  entries = λ s. s;
  add_func = λ spec name s. (added (next_id s), (next_id s, spec, name) ∷ s);
  remove = λ id s. filterb (λ e. not (e.0 == id)) s;
  entries-added = λ spec name s id e. added_lem spec name s id (added_inj (next_id s) id e);
  entries-refused =
      λ spec name s text e. refused_lem (next_id s) text ((next_id s, spec, name) ∷ s) s e;
  entries-remove = λ id s. refl;
}

abbrev nightly : Periodic
nightly = record { job = plain_job (str "nightly") none []; cron = str "@every 1m" }

abbrev empty : Cron Entries
empty = record { cron_agent = []; jobs = [] }

empty-IsLive : IsLive accepting empty
empty-IsLive e m = absurd m

sync-IsLive_example : IsLive accepting (sync_integration_config accepting (nightly ∷ []) empty).1
sync-IsLive_example = sync-IsLive accepting (nightly ∷ []) empty empty-IsLive

abbrev registered : Cron Entries
registered =
    let job : CronJob = record { entry_id = 1; triggered = true; cron_str = str "@every 1m" } in
    record {
      cron_agent = (1, str "TZ=UTC @every 1m", str "nightly") ∷ [];
      jobs = (str "nightly", job) ∷ [];
    }

synced : sync_integration_config accepting (nightly ∷ []) empty ≡ ([], registered)
unfolding sync_integration_config add_periodics add_periodic unless_error add_job register get put
    next_id remove_stale remove_jobs stale cron_keys periodic_names sort_strings str_beq has_prefix
synced = refl

nightly-IsDistinct : IsDistinct (nightly ∷ [])
unfolding IsDistinct periodic_names
nightly-IsDistinct = (refl, tt)

-- Before there was another job, and the nightly one had another cron string.
abbrev before : List Periodic
before =
    let weekly : Periodic = record {
      job = plain_job (str "weekly") none [];
      cron = str "@weekly";
    } in
    record nightly { cron = str "@every 2m" } ∷ weekly ∷ []

abbrev earlier : Cron Entries
earlier = (sync_integration_config accepting before empty).1

empty-IsLinked : IsLinked accepting empty
unfolding get
empty-IsLinked = (tt, λ name j q. ground (arith, q))

earlier-IsLive : IsLive accepting earlier
earlier-IsLive = sync-IsLive accepting before empty empty-IsLive

earlier-IsLinked : IsLinked accepting earlier
earlier-IsLinked = sync-IsLinked accepting before empty empty-IsLinked

earlier_synced : (sync_integration_config accepting (nightly ∷ []) earlier).0 ≡ []
unfolding sync_integration_config add_periodics add_periodic unless_error add_job remove_job
    register get put del next_id remove_stale remove_jobs stale cron_keys periodic_names
    sort_strings str_beq has_prefix
earlier_synced = refl

sync-Registered_example :
    ((p : Periodic)
      → In p (nightly ∷ [])
      → p.cron ≢ []
      → IsScheduled accepting p.job.name p.cron
          (sync_integration_config accepting (nightly ∷ []) earlier).1)
    × ((name : Str)
        → mem_str name (periodic_names (nightly ∷ [])) ≡ false
        → (get name (sync_integration_config accepting (nightly ∷ []) earlier).1.jobs ≡ none)
          × ((e : ℕ × Str × Str)
              → In e (sync_integration_config accepting (nightly ∷ []) earlier).1.cron_agent
              → e.2 ≢ name))
sync-Registered_example =
    sync-Registered accepting (nightly ∷ []) earlier nightly-IsDistinct earlier-IsLive
      earlier-IsLinked earlier_synced

abbrev nightly_config : IntegrationConfig
nightly_config = record config {
  workspaces = [];
  jobs = record { pre_submit_jobs = []; post_submit_jobs = []; periodic_jobs = nightly ∷ [] };
}

abbrev ids : ℕ → Str
ids n = str "abcdefgh"

abbrev create : IntegrationJob → Option Str
create j = none

abbrev made : List IntegrationJob
made = periodic_job 1 nightly_config nightly.job (str "abcdefgh") (str "abcde") ∷ []

abbrev reset_cron : Cron Entries
reset_cron = (queued_jobs accepting registered).1

-- An old run that never ended, and a later one that has completed.
abbrev stuck_run : IntegrationJob
stuck_run =
    let ij = periodic_job 1 nightly_config nightly.job (str "bcdefghi") (str "bcdef") in
    record ij { status = record ij.status { start_time = some 3 } }

abbrev done_run : IntegrationJob
done_run =
    let ij = periodic_job 1 nightly_config nightly.job (str "cdefghij") (str "cdefg") in
    record ij { status = record ij.status { start_time = some 5; completion_time = some 9 } }

abbrev collector : Collector Entries
collector = record {
  cron = (4, str "@every 120h", str "collect") ∷ [];
  cron_spec = str "@every 120h";
  cron_id = 4;
  is_running = true;
}

reconfigure-Follows_example :
    Follows accepting
      (str "@every 11h")
      collector
      (reconfigure accepting (str "@every 11h") collector)
reconfigure-Follows_example =
    reconfigure-Follows accepting (str "@every 11h") collector (refl, refl)
