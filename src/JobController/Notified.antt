-- ===== src/JobController/Notified.antt =====
-- controllers/integrationjob_controller.go: what the scheduler hears of a job that is reconciled.
use cicd_operator.Base.{
  nat_eq, All, Str, str_eq, ◌≡◌, refl, ◌∙◌, inl, inr, Bool, true, false, Option, none, some, List,
  [], ◌∷◌,
}
use cicd_operator.Api.{
  JobState, RunStatus, IntegrationJob, IntegrationConfig, is_set, is_completed, state_eq,
}
use cicd_operator.GitClient.{
  Failure, unauthorized, failed, panicked, Result, ok, err, Request, patch_finalizers, patch_status,
  notify_scheduler, Server, Act, throw, Result-cases,
}
use cicd_operator.PipelineManager.Reflect.{PipelineRun}
use cicd_operator.PipelineManager.Report.{reflect_status}
use cicd_operator.GitClient.Only.{Only, Only-bind}
use cicd_operator.GitClient.{set_commit_status, emit_event}
use cicd_operator.PipelineManager.Requests.{report-Only}
use cicd_operator.PipelineManager.Report.{post, post_all, report, description_of, head_sha}
use cicd_operator.PipelineManager.Reflect.{reflect}
use cicd_operator.JobController.{
  World, job_found, RunLookup, no_run, run_error, run_found, has_finalizer, handle_finalizer,
  failed_job, patch_job_failed, fail_and_notify, after_reflect, with_defaults, reconcile_run,
  reconcile_status, after_finalizer, reconcile,
}

-- A commit status or an event.
unfoldable IsReport : Request → Type 0
IsReport (set_commit_status sha s) = Unit {0}
IsReport (emit_event state text) = Unit {0}
IsReport _ = ⊥

post-IsReport :
    (server : Server) (host : Str) (job : IntegrationJob) (s : RunStatus) (text sha : Option Str)
    → Only IsReport (post server host job s text sha)
unfolding post IsReport
post-IsReport server host job s (some text) (some sha) log all = (tt, all)
post-IsReport server host job s none sha log all = all
post-IsReport server host job s (some text) none log all = all

post_all-IsReport :
    (server : Server) (host : Str) (job : IntegrationJob) (statuses : List RunStatus)
    (flags : List Bool)
    → Only IsReport (post_all server host job statuses flags)
unfolding post_all
post_all-IsReport server host job [] flags log all = all
post_all-IsReport server host job (s ∷ statuses) [] log all = all
post_all-IsReport server host job (s ∷ statuses) (false ∷ flags) log all =
    post_all-IsReport server host job statuses flags log all
post_all-IsReport server host job (s ∷ statuses) (true ∷ flags) log all =
    Only-bind IsReport
      (post server host job s (description_of job.spec.refs s.state) (head_sha job.spec.refs))
      (λ _. post_all server host job statuses flags)
      (post-IsReport server host job s (description_of job.spec.refs s.state)
        (head_sha job.spec.refs))
      (λ _. post_all-IsReport server host job statuses flags) log all

event-IsReport : (state : JobState) (text : Str) → IsReport (emit_event state text)
unfolding IsReport
event-IsReport state text = tt

-- Every status that is patched is the job's, and no other request notifies the scheduler.
unfoldable pub Agrees : IntegrationJob → Request → Type 0
Agrees job (patch_status s) = s ≡ job.status
Agrees job (notify_scheduler k) = ⊥
Agrees job _ = Unit {0}

report-Agrees : (job : IntegrationJob) (r : Request) → IsReport r → Agrees job r
unfolding IsReport Agrees
report-Agrees job (set_commit_status sha s) h = tt
report-Agrees job (emit_event state text) h = tt
report-Agrees job (Request.set_label _ _) h = tt
report-Agrees job (Request.delete_label _ _) h = tt
report-Agrees job (Request.register_comment _ _) h = tt
report-Agrees job (Request.create_job _) h = tt
report-Agrees job (patch_finalizers _) h = tt
report-Agrees job (patch_status _) h = absurd h
report-Agrees job (notify_scheduler _) h = absurd h

reports-Agree :
    (job : IntegrationJob) (log : List Request) → All IsReport log → All (Agrees job) log
reports-Agree job [] all = tt
reports-Agree job (r ∷ log) all = (report-Agrees job r all.0, reports-Agree job log all.1)

-- The requests of a job that is neither deleted nor completed.
unfoldable pub Heard : IntegrationJob → List Request → Type 0
Heard job log =
    (k : IntegrationJob) × (before : List Request) × (log ≡ notify_scheduler k ∷ before)
    × ((k.name ≡ job.name) × (k.namespace ≡ job.namespace))
    × All (Agrees k) before

fail_and_notify-Heard :
    (w : World) (e : Failure) (job : IntegrationJob) (log : List Request)
    → All IsReport log
    → Heard job (fail_and_notify w e job log).1
unfolding fail_and_notify patch_job_failed failed_job Heard Agrees
fail_and_notify-Heard w e job log all = (
  failed_job e job,
  patch_status (failed_job e job).status ∷ log,
  refl,
  (refl, refl),
  (refl, reports-Agree (failed_job e job) log all),
)

after_reflect-Heard :
    (w : World) (r : Result (Unit {0})) (job : IntegrationJob) (log : List Request)
    → All IsReport log
    → Heard job (after_reflect w r job log).1
unfolding after_reflect Heard Agrees
after_reflect-Heard w (ok u) job log all =
    (job, patch_status job.status ∷ log, refl, (refl, refl), (refl, reports-Agree job log all))
after_reflect-Heard w (err panicked) job log all =
    (job, log, refl, (refl, refl), reports-Agree job log all)
after_reflect-Heard w (err (failed e)) job log all = fail_and_notify-Heard w (failed e) job log all
after_reflect-Heard w (err (unauthorized user repo)) job log all =
    fail_and_notify-Heard w (unauthorized user repo) job log all

-- The name and the namespace are kept, and only commit statuses and events are asked for.
abbrev OnlyReports : IntegrationJob → IntegrationJob × Act (Unit {0}) → Type 0
OnlyReports job r =
    ((r.0).name ≡ job.name) × ((r.0).namespace ≡ job.namespace) × All IsReport (r.1 []).1

reflect_status-OnlyReports :
    (w : World) (run : Option PipelineRun) (config : IntegrationConfig) (job : IntegrationJob)
    → OnlyReports job (reflect_status w.server w.host w.notify w.now run config job)
unfolding reflect_status
reflect_status-OnlyReports w run config job =
    elim (reflect w.notify w.now run job.spec.jobs job.status)
      as (λ o. OnlyReports job (elim o as (λ _. IntegrationJob × Act (Unit {0})) [
        | none ↦ (job, throw panicked)
        | some r ↦ (
          record job { status = r.0 },
          report w.server w.host config (record job { status = r.0 }) r.1 job.status.state
              job.status.message,
        )
      ])) [
        | none ↦ (refl, refl, tt)
        | some r ↦ (
          refl,
          refl,
          report-Only IsReport w.server w.host event-IsReport config (record job { status = r.0 })
              r.1 job.status.state job.status.message
              (post_all-IsReport w.server w.host (record job { status = r.0 }) r.0.jobs r.1) [] tt,
        )
      ]

module _ (w : World) (run : Option PipelineRun) (config : IntegrationConfig)
    (job : IntegrationJob) where
  abbrev reflected : IntegrationJob × Act (Unit {0})
  reflected = reflect_status w.server w.host w.notify w.now run config (with_defaults job)

  reflected_lem :
      ((reflected.0).name ≡ job.name)
      × ((reflected.0).namespace ≡ job.namespace)
      × All IsReport (reflected.1 []).1
  unfolding with_defaults
  reflected_lem = reflect_status-OnlyReports w run config (with_defaults job)

  reconcile_run-Heard : Heard job (reconcile_run w run config job []).1
  unfolding reconcile_run Heard
  reconcile_run-Heard =
      let (n, m, all) = reflected_lem in
      let (k, before, e, (a, b), h) =
        after_reflect-Heard w (reflected.1 []).0 reflected.0 (reflected.1 []).1 all in
      (k, before, e, (a ∙ n, b ∙ m), h)

run_lem :
    (w : World) (config : IntegrationConfig) (job : IntegrationJob) (run : RunLookup)
    → Heard job
        ((elim run as (λ _. Act (Unit {0})) [
          | run_error e ↦ fail_and_notify w (failed e) job
          | no_run ↦ reconcile_run w none config job
          | run_found pr ↦ reconcile_run w (some pr) config job
        ])
          []).1
run_lem w config job (run_error e) = fail_and_notify-Heard w (failed e) job [] tt
run_lem w config job no_run = reconcile_run-Heard w none config job
run_lem w config job (run_found pr) = reconcile_run-Heard w (some pr) config job

reconcile_status-Heard :
    (w : World) (job : IntegrationJob) → Heard job (reconcile_status w job []).1
unfolding reconcile_status
reconcile_status-Heard w job = elim (Result-cases w.get_config) [
  | inr (e, q) ↦ rw q (fail_and_notify-Heard w e job [] tt)
  | inl (config, q) ↦ rw q (run_lem w config job w.get_run)
]

plain_finalizer :
    (w : World) (job : IntegrationJob)
    → has_finalizer job.finalizers ≡ true
    → job.deletion_timestamp ≡ none
    → handle_finalizer w job ≡ (job, λ log. (ok false, log))
unfolding handle_finalizer is_set
plain_finalizer w job f d = rw (f, d) refl

not_completed-Heard :
    (w : World) (job : IntegrationJob)
    → is_completed job ≡ false
    → Heard job (after_finalizer w (ok false) job []).1
unfolding after_finalizer
not_completed-Heard w job c = rw (c, is_completed) (reconcile_status-Heard w job)

-- Reconcile of a job that has the finalizer, is not being deleted and has no completion time notifies the scheduler once, as the
-- last thing it does, whatever goes wrong before. The job that the scheduler gets is this one, and each status that
-- was patched is the one that it has there.
pub reconcile-Heard :
    (w : World) (job : IntegrationJob)
    → w.get_job ≡ job_found job
    → has_finalizer job.finalizers ≡ true
    → job.deletion_timestamp ≡ none
    → is_completed job ≡ false
    → Heard job (reconcile w []).1
unfolding reconcile
reconcile-Heard w job g f d c = rw (g, plain_finalizer w job f d) (not_completed-Heard w job c)
