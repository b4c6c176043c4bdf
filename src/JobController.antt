-- ===== src/JobController.antt =====
-- controllers/integrationjob_controller.go. A deferred call is made when the rest has ended. The scheduler's `Notify`
-- is a request here, and its effect is that of Pool.
pub mod Finalizer
pub mod Notified
use cicd_operator.Base.{
  if◌then◌else◌, ◌==◌, nat_eq, Str, str, str_eq, pos, negsuc, ℕ, zero, suc, refl, Bool, true, false,
  not, ◌||◌, Option, none, some, List, [], ◌∷◌, ◌++◌, arith,
}
use cicd_operator.Api.{
  JobState, JobStatus, RunStatus, IntegrationJob, IntegrationConfig, is_set, is_completed,
  set_defaults, state_eq,
}
use cicd_operator.GitClient.{
  Failure, unauthorized, failed, panicked, Result, ok, err, patch_finalizers, patch_status,
  notify_scheduler, Server, Act, ◌>>=◌, finish, throw, send, tell, deferred,
}
use cicd_operator.PipelineManager.Reflect.{PipelineRun}
use cicd_operator.PipelineManager.Report.{reflect_status}

abbrev pub finalizer : Str
finalizer = str "cicd.tmax.io/finalizer"

pub data JobLookup : Type 0 where
  no_job : JobLookup
  job_error : Str → JobLookup
  job_found : IntegrationJob → JobLookup

pub data RunLookup : Type 0 where
  no_run : RunLookup
  run_error : Str → RunLookup
  run_found : PipelineRun → RunLookup

-- What the cluster answers, and what `ReflectStatus` gets besides.
pub record World : Type 0 where
  pub server : Server
  pub get_job : JobLookup
  pub get_config : Result IntegrationConfig
  pub get_run : RunLookup
  pub host : Str
  pub now : ℕ
  pub notify : RunStatus → Option Str

unfoldable pub has_finalizer : List Str → Bool
has_finalizer [] = false
has_finalizer (f ∷ l) = f == finalizer || has_finalizer l

unfoldable pub split_last : List Str → Option (List Str × Str)
split_last [] = none
split_last (f ∷ l) = elim (split_last l) [
  | none ↦ some ([], f)
  | some (front, z) ↦ some (f ∷ front, z)
]

-- The last finalizer takes the place of the first that is the operator's.
unfoldable pub remove_finalizer : List Str → List Str
unfolding split_last
remove_finalizer [] = []
remove_finalizer (f ∷ l) =
    let rest = remove_finalizer l in
    if f == finalizer
    then (elim (split_last l) [ none ↦ [] | some (front, z) ↦ z ∷ front ])
    else f ∷ rest

-- The text of an error; the one of `UnauthorizedError` is as it prints itself.
unfoldable pub error_text : Failure → Str
error_text (unauthorized user repo) = user ++ (str " is not authorized for " ++ repo)
error_text (failed e) = e
error_text panicked = []

unfoldable pub failed_status : Str → JobStatus → JobStatus
failed_status text s = record s { state = JobState.failed; message = text }

unfoldable pub failed_job : Failure → IntegrationJob → IntegrationJob
unfolding failed_status error_text
failed_job e job = record job { status = failed_status (error_text e) job.status }

unfoldable pub with_defaults : IntegrationJob → IntegrationJob
unfolding set_defaults
with_defaults job = record job { status = set_defaults job.status }

module _ (w : World) where
  -- `handleFinalizer`: the job as it is left, and whether to exit.
  unfoldable pub handle_finalizer : IntegrationJob → IntegrationJob × Act Bool
  unfolding has_finalizer remove_finalizer is_set
  handle_finalizer job =
      if not (has_finalizer job.finalizers)
      then (
        record job { finalizers = job.finalizers ++ (finalizer ∷ []) },
        send w.server (patch_finalizers (job.finalizers ++ (finalizer ∷ [])))
            >>= (λ _ log. (ok true, log)),
      )
      else if is_set job.deletion_timestamp
      then (
        record job { finalizers = remove_finalizer job.finalizers },
        tell (notify_scheduler job) >>= (λ _.
            send w.server (patch_finalizers (remove_finalizer job.finalizers))
            >>= (λ _ log. (ok true, log))),
      )
      else (job, λ log. (ok false, log))

  -- `patchJobFailed`; an error of the patch is only logged.
  unfoldable pub patch_job_failed : Failure → IntegrationJob → Act (Unit {0})
  unfolding failed_job
  patch_job_failed e job = tell (patch_status (failed_job e job).status)

  -- An error is written into the status, and the scheduler hears of it.
  unfoldable pub fail_and_notify : Failure → IntegrationJob → Act (Unit {0})
  unfolding patch_job_failed failed_job
  fail_and_notify e job = deferred (patch_job_failed e job) (notify_scheduler (failed_job e job))

  -- What follows `ReflectStatus`, by its result.
  unfoldable pub after_reflect : Result (Unit {0}) → IntegrationJob → Act (Unit {0})
  unfolding fail_and_notify
  after_reflect (ok u) job =
      deferred (send w.server (patch_status job.status)) (notify_scheduler job)
  after_reflect (err panicked) job = deferred (throw panicked) (notify_scheduler job)
  after_reflect (err (failed e)) job = fail_and_notify (failed e) job
  after_reflect (err (unauthorized user repo)) job = fail_and_notify (unauthorized user repo) job

  unfoldable pub reconcile_run :
      Option PipelineRun → IntegrationConfig → IntegrationJob → Act (Unit {0})
  unfolding reflect_status after_reflect with_defaults
  reconcile_run run config job log =
      let (job', act) =
        reflect_status w.server w.host w.notify w.now run config (with_defaults job) in
      after_reflect (act log).0 job' (act log).1

  unfoldable pub reconcile_status : IntegrationJob → Act (Unit {0})
  unfolding reconcile_run fail_and_notify
  reconcile_status job = elim w.get_config [
    | err e ↦ fail_and_notify e job
    | ok config ↦ elim w.get_run [
      | run_error e ↦ fail_and_notify (failed e) job
      | no_run ↦ reconcile_run none config job
      | run_found pr ↦ reconcile_run (some pr) config job
    ]
  ]

  -- What follows `handleFinalizer`, by its result.
  unfoldable pub after_finalizer : Result Bool → IntegrationJob → Act (Unit {0})
  unfolding patch_job_failed reconcile_status is_completed
  after_finalizer (err e) job = patch_job_failed e job
  after_finalizer (ok true) job = finish
  after_finalizer (ok false) job = if is_completed job then finish else reconcile_status job

  -- `Reconcile`
  unfoldable pub reconcile : Act (Unit {0})
  unfolding handle_finalizer after_finalizer
  reconcile log = elim w.get_job [
    | no_job ↦ (ok tt, log)
    | job_error e ↦ (err (failed e), log)
    | job_found job ↦
        let (job', act) = handle_finalizer job in after_finalizer (act log).0 job' (act log).1
  ]
