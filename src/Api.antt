-- ===== src/Api.antt =====
-- api/v1: the objects that the components pass to one another. Pod templates, which are only copied through to
-- Tekton, and the other fields of a container are left out.
pub mod Tasks
use cicd_operator.Base.{
  if◌then◌else◌, Eq, ◌==◌, nat_eq, Str, str, str_eq, has_prefix, trim_prefix, Map, ℕ, ◌*◌, ◌≡◌, ◌↔◌,
  Bool, true, false, not, ◌&&◌, Option, none, some, List, [], arith,
}
use cicd_operator.Git.{StatusState, status_eq}
use cicd_operator.Tekton.{Container, WhenExpression, TaskResult}
use cicd_operator.Api.Tasks.{
  ParameterConfig, TektonTask, JobApproval, NotificationMethods, Notification,
}

-- `IntegrationJobState`; `unset` is the empty string.
pub data JobState : Type 0 where
  unset pending running completed failed : JobState

unfoldable pub state_beq : JobState → JobState → Bool
state_beq unset unset = true
state_beq pending pending = true
state_beq running running = true
state_beq completed completed = true
state_beq failed failed = true
state_beq _ _ = false

pub state_beq_iff : (a b : JobState) → (state_beq a b ≡ true) ↔ (a ≡ b)
unfolding state_beq
state_beq_iff a b = ground arith

instance abbrev pub state_eq : Eq JobState
state_eq = record { beq = state_beq; beq_iff = state_beq_iff }

pub data JobType : Type 0 where
  pre_submit post_submit periodic : JobType

-- A nil slice is `none`.
pub record JobWhen : Type 0 where
  pub branch : Option (List Str)
  pub skip_branch : Option (List Str)
  pub tag : Option (List Str)
  pub skip_tag : Option (List Str)

-- `workspaces` of specs are the names of the bindings. `methods` is the embedded `NotificationMethods`.
pub record Job : Type 0 where
  pub name : Str
  pub container : Container
  pub script : Str
  pub skip_checkout : Bool
  pub when : Option JobWhen
  pub after : List Str
  pub tekton_task : Option TektonTask
  pub approval : Option JobApproval
  pub methods : NotificationMethods
  pub notification : Option Notification
  pub tekton_when : List WhenExpression
  pub results : List TaskResult

pub record Sender : Type 0 where
  pub name : Str
  pub email : Str

pub record RefsBase : Type 0 where
  pub ref : Str
  pub link : Str
  pub sha : Str

pub record RefsPull : Type 0 where
  pub id : ℕ
  pub ref : Str
  pub sha : Str
  pub link : Str
  pub author : Str

-- `pulls` is nil for a push event.
pub record Refs : Type 0 where
  pub repository : Str
  pub link : Str
  pub sender : Option Sender
  pub base : RefsBase
  pub pulls : Option (List RefsPull)

pub record ConfigRef : Type 0 where
  pub name : Str
  pub type : JobType

pub record JobSpec : Type 0 where
  pub config_ref : ConfigRef
  pub id : Str
  pub workspaces : List Str
  pub jobs : List Job
  pub refs : Refs
  pub timeout : ℕ
  pub param_config : Option ParameterConfig

-- `JobStatus` of job_types.go, less the states of the steps. A time that is not set is `none`.
pub record RunStatus : Type 0 where
  pub name : Str
  pub start_time : Option ℕ
  pub completion_time : Option ℕ
  pub state : StatusState
  pub message : Str
  pub pod_name : Str

-- `metav1.Time.Equal`
unfoldable pub time_equal : Option ℕ → Option ℕ → Bool
time_equal none none = true
time_equal none (some t) = false
time_equal (some s) none = false
time_equal (some s) (some t) = s == t

-- `Equals`
unfoldable pub equals : RunStatus → RunStatus → Bool
unfolding time_equal
equals j i =
    j.state == i.state
    && (j.message == i.message
        && (time_equal j.start_time i.start_time && time_equal j.completion_time i.completion_time))

-- `IntegrationJobStatus`
pub record JobStatus : Type 0 where
  pub state : JobState
  pub message : Str
  pub start_time : Option ℕ
  pub completion_time : Option ℕ
  pub jobs : List RunStatus

-- `SetDefaults`
unfoldable pub set_defaults : JobStatus → JobStatus
set_defaults s = if s.state == unset then record s { state = pending } else s

-- Times count from one origin. `deletion_timestamp` is a pointer of ObjectMeta.
pub record IntegrationJob : Type 0 where
  pub name : Str
  pub namespace : Str
  pub labels : Map Str Str
  pub creation_timestamp : ℕ
  pub deletion_timestamp : Option ℕ
  pub finalizers : List Str
  pub spec : JobSpec
  pub status : JobStatus

unfoldable pub is_set : Option ℕ → Bool
is_set none = false
is_set (some t) = true

unfoldable pub is_completed : IntegrationJob → Bool
unfolding is_set
is_completed job = is_set job.status.completion_time

-- `job.When`'s lists are regular expressions; a periodic job has its cron string besides.
pub record Periodic : Type 0 where
  pub job : Job
  pub cron : Str

pub data GitType : Type 0 where
  github gitlab fake : GitType

-- `value_from` names a secret and a key of it.
pub record GitToken : Type 0 where
  pub value : Str
  pub value_from : Option (Str × Str)

pub record GitConfig : Type 0 where
  pub type : GitType
  pub repository : Str
  pub api_url : Str
  pub token : Option GitToken

abbrev pub has_token : GitConfig → Bool
has_token c = elim c.token [ none ↦ false | some t ↦ true ]

-- `GetAPIUrl`
unfoldable pub get_api_url : GitConfig → Str
get_api_url c = elim c.type [
  | github ↦ if c.api_url == [] then str "https://api.github.com" else c.api_url
  | gitlab ↦ if c.api_url == [] then str "https://gitlab.com" else c.api_url
  | fake ↦ c.api_url
]

pub data MergeMethod : Type 0 where
  no_method squash merge : MergeMethod

pub record MergeQuery : Type 0 where
  pub labels : List Str
  pub block_labels : List Str
  pub authors : List Str
  pub skip_authors : List Str
  pub branches : List Str
  pub skip_branches : List Str
  pub checks : List Str
  pub optional_checks : List Str
  pub approve_required : Bool

pub record MergeConfig : Type 0 where
  pub method : MergeMethod
  pub commit_template : Str
  pub query : MergeQuery

pub record ConfigJobs : Type 0 where
  pub pre_submit_jobs : List Job
  pub post_submit_jobs : List Job
  pub periodic_jobs : List Periodic

pub record IntegrationConfig : Type 0 where
  pub name : Str
  pub namespace : Str
  pub git : GitConfig
  pub workspaces : List Str
  pub jobs : ConfigJobs
  pub merge_config : Option MergeConfig
  pub timeout : Option ℕ
  pub param_config : Option ParameterConfig

-- `GetDuration`, in nanoseconds: the default is `configs.IntegrationJobTTL` hours.
unfoldable pub get_duration : ℕ → IntegrationConfig → ℕ
get_duration ttl c = elim c.timeout [ some t ↦ t | none ↦ ttl * 3600000000000 ]

-- `GitRef.GetTag` and `GitRef.GetBranch`
unfoldable pub get_tag : Str → Str
unfolding has_prefix trim_prefix
get_tag ref =
    if not (has_prefix ref (str "refs/"))
    then ref
    else if has_prefix ref (str "refs/tags/")
    then trim_prefix ref (str "refs/tags/")
    else []

unfoldable pub get_branch : Str → Str
unfolding has_prefix trim_prefix
get_branch ref =
    if not (has_prefix ref (str "refs/"))
    then ref
    else if has_prefix ref (str "refs/heads/")
    then trim_prefix ref (str "refs/heads/")
    else []
