-- ===== src/Dispatcher.antt =====
-- pkg/dispatcher/dispatcher.go. `compile` is `regexp.Compile` with `MatchString`: none for a pattern that does
-- not compile. A result `none` is a panic. The random id of a job is an argument.
pub mod Pulls
use cicd_operator.Base.{
  ltb, if◌then◌else◌, ◌==◌, nat_eq, length, filterb, Str, str, str_eq, contains_text, strip_all,
  slice_to, Map, pos, negsuc, ℕ, zero, suc, refl, Bool, true, false, not, ◌&&◌, ◌||◌, Option, none,
  some, List, [], ◌∷◌, ◌++◌, map, arith,
}
use cicd_operator.Api.{
  pre_submit, post_submit, unset, Job, RefsPull, JobSpec, IntegrationJob, IntegrationConfig,
  get_duration,
}
use cicd_operator.Git.{
  EventType, pull_request, push, PullRequestAction, opened, reopened, synchronize, User,
  PullRequest, Push, Repository, Webhook,
}

-- The branch and the tag that come in with an event.
unfoldable pub incoming : EventType → Str → Str × Str
unfolding contains_text strip_all
incoming pull_request ref = (ref, [])
incoming push ref =
    if contains_text ref (str "refs/tags/")
    then ([], strip_all ref (str "refs/tags/"))
    else (strip_all ref (str "refs/heads/"), [])
incoming _ ref = ([], [])

-- Open, synchronize and reopen start the jobs of a pull request.
unfoldable pub starts_jobs : PullRequestAction → Bool
starts_jobs opened = true
starts_jobs synchronize = true
starts_jobs reopened = true
starts_jobs _ = false

-- `ObjectMeta`: the name and the labels of a generated job.
unfoldable pub generate_name : Str → Str → Str → Option Str
unfolding slice_to
generate_name cfg_name sha job_id = elim (slice_to 5 sha) [
  | none ↦ none
  | some s ↦ elim (slice_to 5 job_id) [
    | none ↦ none
    | some j ↦ some (cfg_name ++ (b'-' ∷ (s ++ (b'-' ∷ j))))
  ]
]

abbrev pub generate_labels : Str → Str → Map Str Str
generate_labels cfg_name job_id =
    (str "cicd.tmax.io/integration-config", cfg_name)
    ∷ (str "cicd.tmax.io/integration-id", job_id)
    ∷ []

unfoldable pub generate_pull : PullRequest → RefsPull
generate_pull pr = record {
  id = pr.id;
  ref = pr.head.ref;
  sha = pr.head.sha;
  link = pr.url;
  author = pr.author.name;
}

unfoldable pub generate_pulls : List PullRequest → List RefsPull
unfolding generate_pull
generate_pulls prs = map generate_pull prs

-- A job as `Create` gets it: the API server sets the creation time, and no status is set yet.
unfoldable pub fresh_job : IntegrationConfig → Str → Str → JobSpec → IntegrationJob
fresh_job config name job_id spec = record {
  name = name;
  namespace = config.namespace;
  labels = generate_labels config.name job_id;
  creation_timestamp = 0;
  deletion_timestamp = none;
  finalizers = [];
  spec = spec;
  status = record {
    state = unset;
    message = [];
    start_time = none;
    completion_time = none;
    jobs = [];
  };
}

module _ (compile : Str → Option (Str → Bool)) where
  unfoldable pub match_string : Str → Str → Bool
  match_string incoming target = elim (compile target) [ none ↦ false | some re ↦ re incoming ]

  unfoldable pub any_match : Str → List Str → Bool
  unfolding match_string
  any_match incoming [] = false
  any_match incoming (t ∷ ts) = match_string incoming t || any_match incoming ts

  -- One turn of the loops of `filterTags` and `filterBranches`: whether the job is appended.
  unfoldable pub selected : Option (List Str) → Option (List Str) → Str → Bool
  unfolding any_match
  selected none none incoming = true
  selected (some ts) none incoming = not (incoming == []) && any_match incoming ts
  selected none (some skips) incoming = not (incoming == []) && not (any_match incoming skips)
  selected (some ts) (some skips) incoming = false

  unfoldable pub tag_selected : Str → Job → Bool
  unfolding selected
  tag_selected incoming_tag job = elim job.when [
    | none ↦ true
    | some w ↦ selected w.tag w.skip_tag incoming_tag
  ]

  unfoldable pub branch_selected : Str → Job → Bool
  unfolding selected
  branch_selected incoming_branch job = elim job.when [
    | none ↦ true
    | some w ↦ selected w.branch w.skip_branch incoming_branch
  ]

  unfoldable pub filter_tags : List Job → Str → List Job
  unfolding tag_selected
  filter_tags jobs incoming_tag = filterb (tag_selected incoming_tag) jobs

  unfoldable pub filter_branches : List Job → Str → List Job
  unfolding branch_selected
  filter_branches jobs incoming_branch = filterb (branch_selected incoming_branch) jobs

  unfoldable pub filter_jobs : List Job → EventType → Str → List Job
  unfolding incoming filter_tags filter_branches
  filter_jobs cand ev_type ref =
      let (branch, tag) = incoming ev_type ref in filter_branches (filter_tags cand tag) branch

  module _ (ttl : ℕ) (job_id : Str) where
    unfoldable pub pre_submit_spec :
        List PullRequest → PullRequest → List Job → Repository → User → IntegrationConfig → JobSpec
    unfolding get_duration generate_pulls
    pre_submit_spec prs first jobs repo sender config = record {
      config_ref = record { name = config.name; type = pre_submit };
      id = job_id;
      workspaces = config.workspaces;
      jobs = jobs;
      refs = record {
        repository = repo.name;
        link = repo.url;
        sender = some (record { name = sender.name; email = sender.email });
        base = record { ref = first.base.ref; link = repo.url; sha = first.base.sha };
        pulls = some (generate_pulls prs);
      };
      timeout = get_duration ttl config;
      param_config = config.param_config;
    }

    -- The part of the job's name that comes from the pull requests.
    unfoldable pub pre_submit_name : List PullRequest → PullRequest → Str
    pre_submit_name prs first = if ltb 1 (length prs) then str "batch" else first.head.sha

    unfoldable pub named : Str → IntegrationConfig → JobSpec → Option (Option IntegrationJob)
    unfolding generate_name fresh_job
    named sha config spec = elim (generate_name config.name sha job_id) [
      | none ↦ none
      | some name ↦ some (some (fresh_job config name job_id spec))
    ]

    unfoldable pub generate_pre_submit :
        List PullRequest → Repository → User → IntegrationConfig → Option (Option IntegrationJob)
    unfolding filter_jobs pre_submit_spec pre_submit_name named
    generate_pre_submit [] repo sender config = none
    generate_pre_submit (pr ∷ prs) repo sender config =
        elim (filter_jobs config.jobs.pre_submit_jobs pull_request pr.base.ref) [
          | [] ↦ some none
          | j ∷ jobs ↦
              named (pre_submit_name (pr ∷ prs) pr) config
                (pre_submit_spec (pr ∷ prs) pr (j ∷ jobs) repo sender config)
        ]

    unfoldable pub post_submit_spec :
        Push → List Job → Repository → User → IntegrationConfig → JobSpec
    unfolding get_duration
    post_submit_spec p jobs repo sender config = record {
      config_ref = record { name = config.name; type = post_submit };
      id = job_id;
      workspaces = config.workspaces;
      jobs = jobs;
      refs = record {
        repository = repo.name;
        link = repo.url;
        sender = some (record { name = sender.name; email = sender.email });
        base = record { ref = p.ref; link = repo.url; sha = p.sha };
        pulls = none;
      };
      timeout = get_duration ttl config;
      param_config = config.param_config;
    }

    unfoldable pub generate_post_submit :
        Push → Repository → User → IntegrationConfig → Option (Option IntegrationJob)
    unfolding filter_jobs post_submit_spec named
    generate_post_submit p repo sender config =
        elim (filter_jobs config.jobs.post_submit_jobs push p.ref) [
          | [] ↦ some none
          | j ∷ jobs ↦ named p.sha config (post_submit_spec p (j ∷ jobs) repo sender config)
        ]

    -- The job that an event asks for.
    unfoldable pub job_for :
        EventType
        → Option PullRequest
        → Option Push
        → Repository
        → User
        → IntegrationConfig
        → Option (Option IntegrationJob)
    unfolding generate_pre_submit generate_post_submit starts_jobs
    job_for pull_request (some pr) p repo sender config =
        if starts_jobs pr.action
        then generate_pre_submit (pr ∷ []) repo sender config
        else some none
    job_for push pull (some p) repo sender config = generate_post_submit p repo sender config
    job_for _ pull p repo sender config = some none

    -- `Handle`, with the job that is asked of the cluster and the error returned.
    unfoldable pub handle :
        (IntegrationJob → Option Str)
        → Webhook
        → IntegrationConfig
        → Option (Option IntegrationJob × Option Str)
    unfolding job_for
    handle create webhook config = elim webhook.pull [
      | none ↦ elim webhook.push_event [
        | none ↦ some (none, some (str "pull request and push struct is nil"))
        | some p ↦
            submit (job_for webhook.event_type none (some p) webhook.repo webhook.sender config)
      ]
      | some pr ↦ submit (
          job_for webhook.event_type (some pr) webhook.push_event webhook.repo webhook.sender
            config)
    ]
      where
        submit : Option (Option IntegrationJob) → Option (Option IntegrationJob × Option Str)
        submit none = none
        submit (some none) = some (none, none)
        submit (some (some job)) = some (some job, create job)
