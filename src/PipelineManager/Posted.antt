-- ===== src/PipelineManager/Posted.antt =====
-- pkg/pipelinemanager/pipelinemanager.go: which commit statuses are posted.
use cicd_operator.Base.{
  nat_eq, length, take, drop, replicate, All, Str, str_eq, ℕ, ◌≤◌, ◌≡◌, refl, sym, ap, ◌∙◌, Bool,
  true, false, Option, none, some, List, [], ◌∷◌, arith,
}
use cicd_operator.Api.{
  has_token, JobState, RunStatus, IntegrationJob, IntegrationConfig, RefsPull, state_eq,
}
use cicd_operator.Git.{StatusState, success, failure, pending, status_eq}
use cicd_operator.GitClient.{ok, Request, set_commit_status, emit_event, Server}
use cicd_operator.PipelineManager.Reflect.{reflect}
use mathlib.Core.Path.{subst}
use cicd_operator.PipelineManager.Times.{set_times_jobs}
use cicd_operator.GitClient.Only.{Only}
use cicd_operator.PipelineManager.Description.{parse_base_from_description}
use cicd_operator.PipelineManager.RoundTrip.{IsSha, NoB, parse-append}
use cicd_operator.PipelineManager.InitState.{init_state, init_state_flags}
use cicd_operator.PipelineManager.Reflect.{job_names, set_times, lost_run}
use cicd_operator.PipelineManager.Requests.{report-Only}
use cicd_operator.PipelineManager.Report.{
  message_of, description_of, head_sha, is_batch, commit_status, post, post_all,
  update_git_commit_status, reflect_status,
}

NoB-message_of : (state : StatusState) → NoB (message_of state)
unfolding message_of
NoB-message_of success = ground arith
NoB-message_of failure = ground arith
NoB-message_of StatusState.error = ground arith
NoB-message_of pending = ground arith

module _ (server : Server) (host : Str) (job : IntegrationJob) where
  -- One commit status for each job with a flag, in the order of the jobs: it has the job's name and state,
  -- is set on that commit, and its description gives the base commit back.
  unfoldable pub Posts : Str → List RunStatus → List Bool → List Request → List Request → Type 0
  Posts sha [] flags before done = done ≡ before
  Posts sha (s ∷ statuses) [] before done = ⊥
  Posts sha (s ∷ statuses) (true ∷ flags) before done =
      (text : Str) × (parse_base_from_description text ≡ job.spec.refs.base.sha)
      × Posts sha statuses flags
          (set_commit_status sha (commit_status server host job s text) ∷ before) done
  Posts sha (s ∷ statuses) (false ∷ flags) before done = Posts sha statuses flags before done

  module _ (p : RefsPull) (one : job.spec.refs.pulls ≡ some (p ∷ []))
      (base : IsSha job.spec.refs.base.sha) where
    description_lem :
        (state : StatusState)
        → (text : Str) × (description_of job.spec.refs state ≡ some text)
          × (parse_base_from_description text ≡ job.spec.refs.base.sha)
    unfolding description_of
    description_lem state =
        let (text, e, q, _) =
          parse-append (message_of state) job.spec.refs.base.sha base (NoB-message_of state) in
        (text, ground (arith, one, e), q)

    head_lem : head_sha job.spec.refs ≡ some p.sha
    unfolding head_sha
    head_lem = ground (arith, one)

    post_all-Posts :
        (statuses : List RunStatus) (flags : List Bool) (log : List Request)
        → length statuses ≤ length flags
        → (done : List Request) × (post_all server host job statuses flags log ≡ (ok tt, done))
          × Posts p.sha statuses flags log done
    unfolding post_all Posts post
    post_all-Posts [] flags log h = (log, refl, refl)
    post_all-Posts (s ∷ statuses) [] log h = absurd (omega (arith, h))
    post_all-Posts (s ∷ statuses) (false ∷ flags) log h =
        post_all-Posts statuses flags log (omega (arith, h))
    post_all-Posts (s ∷ statuses) (true ∷ flags) log h =
        let (text, e, q) = description_lem s.state in
        let (done, r, t) =
          post_all-Posts statuses flags
            (set_commit_status p.sha (commit_status server host job s text) ∷ log)
            (omega (arith, h)) in
        (done, ground (arith, e, head_lem, r), (text, q, t))

    -- For a job of one pull request, a token that is set, a client, a base commit of five to forty hexadecimal
    -- digits and a flag for each status, the update succeeds: it sets one commit status on the pull
    -- request's commit for each job that changed, in their order, from which the merger reads the base commit back.
    pub update-Posts :
        (config : IntegrationConfig) (flags : List Bool) (log : List Request)
        → has_token config.git ≡ true
        → server.client ≡ ok tt
        → length job.status.jobs ≤ length flags
        → (done : List Request) × (update_git_commit_status server host config job flags log
            ≡ (ok tt, done))
          × Posts p.sha job.status.jobs flags log done
    unfolding update_git_commit_status is_batch
    update-Posts config flags log t c h =
        let (done, r, q) = post_all-Posts job.status.jobs flags log h in
        (done, ground (arith, one, t, c, r), q)

-- Every request but a commit status.
unfoldable pub NoStatus : Request → Type 0
NoStatus (set_commit_status sha s) = ⊥
NoStatus _ = Unit {0}

none_flagged :
    (server : Server) (host : Str) (job : IntegrationJob) (statuses : List RunStatus)
    (flags : List Bool)
    → take (length statuses) flags ≡ replicate (length statuses) false
    → Only NoStatus (post_all server host job statuses flags)
unfolding post_all
none_flagged server host job [] flags h log all = all
none_flagged server host job (s ∷ statuses) [] h log all = all
none_flagged server host job (s ∷ statuses) (false ∷ flags) h log all =
    none_flagged server host job statuses flags (ap (drop 1) h) log all
none_flagged server host job (s ∷ statuses) (true ∷ flags) h log all = ground (arith, h)

event-NoStatus : (state : JobState) (text : Str) → NoStatus (emit_event state text)
unfolding NoStatus
event-NoStatus state text = tt

-- Without a PipelineRun no commit status is set, whatever becomes of the job's state.
pub lost-NoStatus :
    (server : Server) (host : Str) (notify : RunStatus → Option Str) (now : ℕ)
    (config : IntegrationConfig) (job : IntegrationJob)
    → All NoStatus ((reflect_status server host notify now none config job).1 []).1
unfolding reflect_status reflect
lost-NoStatus server host notify now config job =
    let names = job_names job.spec.jobs in
    let (n, _, f) = init_state_flags names job.status.jobs in
    let flags = (init_state names job.status.jobs).0 in
    let after =
      set_times now
        (record (lost_run job.status) { jobs = (init_state names job.status.jobs).1 }) in
    let same : length after.jobs ≡ length names =
      ap length (
        set_times_jobs now
          (record (lost_run job.status) { jobs = (init_state names job.status.jobs).1 }))
      ∙ n in
    report-Only NoStatus server host event-NoStatus config (record job { status = after }) flags
      job.status.state job.status.message
      (none_flagged server host (record job { status = after }) after.jobs flags
        (subst (λ k. take k flags ≡ replicate k false) (sym same) f))
      [] tt
