-- ===== src/PipelineManager/Reflect.antt =====
-- pkg/pipelinemanager/pipelinemanager.go: what a PipelineRun says of a job. A reason is read as tekton's
-- constants name it. A list of task runs is in the order in which `range` visits the map.
use cicd_operator.Base.{
  if◌then◌else◌, ◌==◌, nat_eq, length, drop, Str, str_eq, ℕ, Bool, true, false, not, ◌||◌, Option,
  none, some, List, [], ◌∷◌, ◌++◌, map,
}
use cicd_operator.Api.{
  JobState, running, completed, JobStatus, RunStatus, Job, time_equal, is_set, state_eq,
}
use cicd_operator.Git.{StatusState, success, failure, status_eq}
use cicd_operator.PipelineManager.InitState.{init_state, pending_status}

pub data Reason : Type 0 where
  successful completed_reason failed_reason cancelled timed_out other_reason : Reason

pub record Condition : Type 0 where
  pub reason : Reason
  pub text : Str

pub data ConditionStatus : Type 0 where
  condition_true condition_false condition_unknown : ConditionStatus

-- A task run whose `Status` is nil is one with no status here.
pub record TaskRunStatus : Type 0 where
  pub pod : Str
  pub started : Option ℕ
  pub ended : Option ℕ
  pub conditions : List Condition

pub record CustomRunStatus : Type 0 where
  pub started : Option ℕ
  pub ended : Option ℕ
  pub conditions : List (ConditionStatus × Str)

-- `condition` is what `GetCondition(Succeeded)` finds, `conditions` the list that it searches.
pub record PipelineRun : Type 0 where
  pub created_at : ℕ
  pub ended : Option ℕ
  pub condition : Option Str
  pub conditions : List Condition
  pub task_runs : List (Str × Option TaskRunStatus)
  pub runs : List (Str × Option CustomRunStatus)

unfoldable pub task_state : Reason → StatusState → StatusState
task_state successful old = success
task_state failed_reason old = failure
task_state cancelled old = failure
task_state timed_out old = failure
task_state _ old = old

unfoldable pub run_state : ConditionStatus → StatusState → StatusState
run_state condition_true old = success
run_state condition_false old = failure
run_state condition_unknown old = old

-- The first entry of the task that has a status.
unfoldable pub find_run {ℓ} : {A : Type ℓ} → Str → List (Str × Option A) → Option A
find_run name [] = none
find_run name ((task, status) ∷ l) =
    let rest = find_run name l in
    elim status [ none ↦ rest | some s ↦ if task == name then some s else rest ]

unfoldable pub from_task_run : RunStatus → TaskRunStatus → RunStatus
unfolding task_state
from_task_run s t =
    let timed : RunStatus = record s {
      pod_name = t.pod;
      start_time = t.started;
      completion_time = t.ended;
    } in
    elim t.conditions [
      | [] ↦ timed
      | c ∷ l ↦ record timed { message = c.text; state = task_state c.reason s.state }
    ]

unfoldable pub from_custom_run : RunStatus → CustomRunStatus → RunStatus
unfolding run_state
from_custom_run s t =
    let timed : RunStatus = record s { start_time = t.started; completion_time = t.ended } in
    elim t.conditions [
      | [] ↦ timed
      | c ∷ l ↦ record timed { message = c.1; state = run_state c.0 s.state }
    ]

unfoldable pub job_task_status : PipelineRun → Str → RunStatus
unfolding find_run from_task_run pending_status
job_task_status pr name = elim (find_run name pr.task_runs) [
  | none ↦ pending_status name
  | some t ↦ from_task_run (pending_status name) t
]

unfoldable pub get_job_run_status : PipelineRun → Str → RunStatus
unfolding job_task_status find_run from_custom_run
get_job_run_status pr name =
    let s = job_task_status pr name in
    if s.pod_name == []
    then (elim (find_run name pr.runs) [ none ↦ s | some t ↦ from_custom_run s t ])
    else s

-- `changed` of reflectJobStatus.
unfoldable pub has_changed : RunStatus → RunStatus → Bool
unfolding time_equal
has_changed j run =
    not (j.state == run.state)
    || (not (time_equal j.start_time run.start_time)
        || not (time_equal j.completion_time run.completion_time))

-- The state that a PipelineRun with this reason gives.
unfoldable pub reason_state : Reason → JobState
reason_state successful = completed
reason_state completed_reason = completed
reason_state failed_reason = JobState.failed
reason_state cancelled = JobState.failed
reason_state timed_out = JobState.failed
reason_state other_reason = running

unfoldable pub is_ended : JobState → Bool
is_ended completed = true
is_ended JobState.failed = true
is_ended _ = false

-- A status that has ended gets the times that it does not have.
unfoldable pub set_times : ℕ → JobStatus → JobStatus
unfolding is_ended
set_times now s =
    if is_ended s.state
    then record s {
      start_time = (elim s.start_time [ none ↦ some now | some t ↦ some t ]);
      completion_time = (elim s.completion_time [ none ↦ some now | some t ↦ some t ]);
    }
    else s

unfoldable pub lost_run : JobStatus → JobStatus
lost_run s = if s.state == running then record s { state = JobState.failed } else s

-- The state, the times and the message of a PipelineRun; none is an index out of range.
unfoldable pub run_status : PipelineRun → JobStatus → Option JobStatus
unfolding reason_state
run_status pr s =
    let began : JobStatus = record s {
      state = running;
      start_time = some pr.created_at;
      completion_time = pr.ended;
    } in
    elim pr.condition [
      | none ↦ some began
      | some text ↦ elim pr.conditions [
        | [] ↦ none
        | c ∷ l ↦ some (record began { message = text; state = reason_state c.reason })
      ]
    ]

abbrev pub job_names : List Job → List Str
job_names jobs = map (λ j. j.name) jobs

-- `notify` is the error of the notification about a completed job: its text becomes the job's message.
module _ (notify : RunStatus → Option Str) where
  unfoldable pub reflect_job_status : PipelineRun → Str → RunStatus → Bool × RunStatus
  unfolding get_job_run_status has_changed is_set
  reflect_job_status pr name j =
      let run = get_job_run_status pr name in
      (
        has_changed j run,
        if is_set run.completion_time
            then (elim (notify run) [ none ↦ run | some e ↦ record run { message = e } ])
            else run,
      )

  -- The loop over the jobs; none where `Status.Jobs` is too short.
  unfoldable pub reflect_jobs :
      PipelineRun → List Str → List RunStatus → Option (List Bool × List RunStatus)
  unfolding reflect_job_status
  reflect_jobs pr [] statuses = some ([], statuses)
  reflect_jobs pr (name ∷ names) [] = none
  reflect_jobs pr (name ∷ names) (s ∷ statuses) =
      let (changed, s') = reflect_job_status pr name s in
      elim (reflect_jobs pr names statuses) [
        | none ↦ none
        | some (flags, rest) ↦ some (changed ∷ flags, s' ∷ rest)
      ]

  -- What ReflectStatus makes of the status, and the flags that say which jobs have changed.
  unfoldable pub reflect :
      ℕ → Option PipelineRun → List Job → JobStatus → Option (JobStatus × List Bool)
  unfolding init_state lost_run run_status reflect_jobs set_times
  reflect now none jobs s =
      let (flags, statuses) = init_state (job_names jobs) s.jobs in
      some (set_times now (record (lost_run s) { jobs = statuses }), flags)
  reflect now (some pr) jobs s =
      let (flags, statuses) = init_state (job_names jobs) s.jobs in
      elim (run_status pr s) [
        | none ↦ none
        | some r ↦ elim (reflect_jobs pr (job_names jobs) statuses) [
          | none ↦ none
          | some (changed, statuses') ↦
              some
                (set_times now (record r { jobs = statuses' }), changed ++ drop (length jobs) flags)
        ]
      ]
