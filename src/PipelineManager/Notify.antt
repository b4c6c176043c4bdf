-- ===== src/PipelineManager/Notify.antt =====
-- pkg/pipelinemanager/notification.go: the runs that notify of a job which has ended.
pub mod Wanted
use cicd_operator.Base.{
  if◌then◌else◌, ◌==◌, nat_eq, Str, str, str_eq, Option, none, some, List, [], ◌∷◌, ◌++◌,
}
use cicd_operator.Tekton.{Param, TaskRef}
use cicd_operator.Api.{
  Job, JobType, pre_submit, post_submit, periodic, RunStatus, IntegrationJob, ConfigJobs,
}
use cicd_operator.Api.Tasks.{NotiEmail, NotiSlack, NotificationMethods, Notification}
use cicd_operator.Git.{StatusState, success, failure, error, pending}
use cicd_operator.PipelineManager.CustomRuns.{
  generate_custom_task_ref, generate_email_run_params, generate_slack_run_params,
}

-- A `Run` of one of the operator's own tasks, as it is created.
pub record CustomRun : Type 0 where
  pub name : Str
  pub namespace : Str
  pub ref : TaskRef
  pub params : List Param

pub data RunAnswer : Type 0 where
  existing missing : RunAnswer
  unanswered : Str → RunAnswer

-- The answers of the cluster; runs are found by name and namespace.
pub record RunCluster : Type 0 where
  pub owner_error : Option Str
  pub get_run : Str → Str → RunAnswer
  pub create_error : CustomRun → Option Str

-- The runs whose creation is asked for, and the error.
abbrev pub Notified : Type 0
Notified = List CustomRun × Option Str

unfoldable pub get_spec_from_status : RunStatus → List Job → Option Job
get_spec_from_status s [] = none
get_spec_from_status s (j ∷ jobs) = if j.name == s.name then some j else get_spec_from_status s jobs

-- A periodic job has no specification here.
unfoldable pub jobs_of_type : JobType → ConfigJobs → List Job
jobs_of_type pre_submit jobs = jobs.pre_submit_jobs
jobs_of_type post_submit jobs = jobs.post_submit_jobs
jobs_of_type periodic jobs = []

unfoldable pub get_notification_from_spec : StatusState → Notification → Option NotificationMethods
get_notification_from_spec success n = n.on_success
get_notification_from_spec failure n = n.on_failure
get_notification_from_spec error n = n.on_failure
get_notification_from_spec pending n = none

unfoldable pub common_noti_run : IntegrationJob → Job → Str → Str → List Param → CustomRun
unfolding generate_custom_task_ref
common_noti_run ij j kind label params = record {
  name = ij.name ++ b'-' ∷ j.name ++ b'-' ∷ label;
  namespace = ij.namespace;
  ref = generate_custom_task_ref kind;
  params = params;
}

unfoldable pub email_run : IntegrationJob → Job → NotiEmail → CustomRun
unfolding common_noti_run generate_email_run_params
email_run ij j e =
    common_noti_run ij j (str "EmailTask") (str "email") (generate_email_run_params ij j e)

unfoldable pub slack_run : IntegrationJob → Job → NotiSlack → CustomRun
unfolding common_noti_run generate_slack_run_params
slack_run ij j s =
    common_noti_run ij j (str "SlackTask") (str "slack") (generate_slack_run_params ij j s)

-- What follows, unless there was an error.
unfoldable pub next_unless_error : Notified → Notified → Notified
next_unless_error (runs, some e) next = (runs, some e)
next_unless_error (runs, none) next = (runs ++ next.0, next.1)

module _ (c : RunCluster) where
  -- A run is created if there is none of its name.
  unfoldable pub create_missing : CustomRun → RunAnswer → Notified
  create_missing run existing = ([], none)
  create_missing run missing = (run ∷ [], c.create_error run)
  create_missing run (unanswered e) = ([], some e)

  unfoldable pub create_owned : CustomRun → Option Str → Notified
  unfolding create_missing
  create_owned run (some e) = ([], some e)
  create_owned run none = create_missing run (c.get_run run.name run.namespace)

  unfoldable pub create_once : CustomRun → Notified
  unfolding create_owned
  create_once run = create_owned run c.owner_error

  unfoldable pub handle_email_notification : IntegrationJob → Job → Option NotiEmail → Notified
  unfolding create_once email_run
  handle_email_notification ij j none = ([], none)
  handle_email_notification ij j (some e) = create_once (email_run ij j e)

  unfoldable pub handle_slack_notification : IntegrationJob → Job → Option NotiSlack → Notified
  unfolding create_once slack_run
  handle_slack_notification ij j none = ([], none)
  handle_slack_notification ij j (some s) = create_once (slack_run ij j s)

  unfoldable pub notify_methods : IntegrationJob → Job → Option NotificationMethods → Notified
  unfolding next_unless_error handle_email_notification handle_slack_notification
  notify_methods ij j none = ([], none)
  notify_methods ij j (some m) =
      next_unless_error (handle_email_notification ij j m.email)
        (handle_slack_notification ij j m.slack)

  unfoldable pub notify_of : IntegrationJob → RunStatus → Job → Option Notification → Notified
  unfolding notify_methods get_notification_from_spec
  notify_of ij s j none = ([], none)
  notify_of ij s j (some n) = notify_methods ij j (get_notification_from_spec s.state n)

  unfoldable pub notify_job : IntegrationJob → RunStatus → Option Job → Notified
  unfolding notify_of
  notify_job ij s none = ([], some (str "no jobSpec " ++ (s.name ++ str " exists in the config")))
  notify_job ij s (some j) = notify_of ij s j j.notification

  -- `handleNotification`
  unfoldable pub handle_notification : RunStatus → IntegrationJob → ConfigJobs → Notified
  unfolding notify_job get_spec_from_status jobs_of_type
  handle_notification s ij jobs =
      notify_job ij s (get_spec_from_status s (jobs_of_type ij.spec.config_ref.type jobs))
