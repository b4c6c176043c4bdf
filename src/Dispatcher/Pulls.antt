-- ===== src/Dispatcher/Pulls.antt =====
-- pkg/dispatcher/dispatcher.go: what a pull request event asks for.
use cicd_operator.Base.{
  Bool-cases, Option-cases, In-filterb_iff, ==_iff, nat_eq, length, filterb, In, Str, str_eq,
  slice_to, ℕ, ◌≤◌, ◌≡◌, refl, sym, ap, ◌∙◌, ◌≢◌, ◌↔◌, ◌⊎◌, inl, inr, Bool, true, Option, none,
  some, List, [], ◌∷◌, arith,
}
use mathlib.Core.Path.{subst}
use cicd_operator.Api.{JobWhen, Job, IntegrationConfig, IntegrationJob}
use cicd_operator.Git.{
  pull_request, PullRequest, PullRequestAction, opened, reopened, synchronize, Webhook,
}
use cicd_operator.Dispatcher.{
  match_string, any_match, selected, tag_selected, branch_selected, filter_tags, filter_branches,
  incoming, filter_jobs, generate_pre_submit, pre_submit_spec, pre_submit_name, generate_name,
  named, fresh_job, generate_pulls, generate_pull, job_for, handle, starts_jobs,
}

-- The pull request was opened or reopened, or has new commits.
abbrev pub IsStart : PullRequestAction → Type 0
IsStart a = (a ≡ opened) ⊎ (a ≡ reopened) ⊎ (a ≡ synchronize)

starts_jobs_iff : (a : PullRequestAction) → (starts_jobs a ≡ true) ↔ IsStart a
unfolding starts_jobs
starts_jobs_iff a = ground arith

module _ (compile : Str → Option (Str → Bool)) where
  -- Some pattern of the list compiles and matches.
  abbrev pub Matches : List Str → Str → Type 0
  Matches ts ref = (t : Str) × In t ts × (re : Str → Bool) × (compile t ≡ some re) × (re ref ≡ true)

  -- A list to run on and a list to skip let a job run; with both it never runs.
  abbrev pub Allows : Option (List Str) → Option (List Str) → Str → Type 0
  Allows none none ref = Unit {0}
  Allows (some ts) none ref = (ref ≢ []) × Matches ts ref
  Allows none (some ss) ref = (ref ≢ []) × ¬ Matches ss ref
  Allows (some ts) (some ss) ref = ⊥

  -- A pull request has a branch and no tag.
  abbrev pub RunsOn : Option JobWhen → Str → Type 0
  RunsOn none branch = Unit {0}
  RunsOn (some w) branch = Allows w.tag w.skip_tag [] × Allows w.branch w.skip_branch branch

  match_string_iff :
      (ref t : Str)
      → (match_string compile ref t ≡ true)
        ↔ ((re : Str → Bool) × (compile t ≡ some re) × (re ref ≡ true))
  unfolding match_string
  match_string_iff ref t = elim (Option-cases (compile t)) [
    | inl n ↦ ((λ h. ground (arith, n, h)), (λ (re, e, h). cc e))
    | inr (re, q) ↦ ((λ h. (re, q, ground (arith, q, h))), (λ (re', e, h). ground (arith, e, h)))
  ]

  any_match_iff : (ref : Str) (ts : List Str) → (any_match compile ref ts ≡ true) ↔ Matches ts ref
  unfolding any_match
  any_match_iff ref [] = ((λ h. cc h), (λ (t, m, re, e, h). absurd m))
  any_match_iff ref (t ∷ ts) = (
    (λ h. elim (Bool-cases (match_string compile ref t)) [
      | inl y ↦ let (re, e, k) = (match_string_iff ref t).0 y in (t, inl refl, re, e, k)
      | inr n ↦
          let (u, m, re, e, k) = (any_match_iff ref ts).0 (ground (arith, h, n)) in
          (u, inr m, re, e, k)
    ]),
    (λ (u, m, re, e, k). elim m [
      | inl q ↦ ground (arith, (match_string_iff ref t).1 (re, ap compile (sym q) ∙ e, k))
      | inr l ↦ ground (arith, (any_match_iff ref ts).1 (u, l, re, e, k))
    ]),
  )

  selected_iff :
      (only skip : Option (List Str)) (ref : Str)
      → (selected compile only skip ref ≡ true) ↔ Allows only skip ref
  unfolding selected
  selected_iff none none ref = ((λ h. tt), (λ h. refl))
  selected_iff (some ts) none ref = (
    (λ h. (
      (λ e. ground (arith, h, (==_iff ref []).1 e)),
      (any_match_iff ref ts).0 (ground (arith, h)),
    )),
    (λ (n, m). ground (arith, n, (==_iff ref []).0, (any_match_iff ref ts).1 m)),
  )
  selected_iff none (some ss) ref = (
    (λ h. (
      (λ e. ground (arith, h, (==_iff ref []).1 e)),
      (λ m. ground (arith, h, (any_match_iff ref ss).1 m)),
    )),
    (λ (n, m). ground (arith, n, (==_iff ref []).0, m, (any_match_iff ref ss).0)),
  )
  selected_iff (some ts) (some ss) ref = ((λ h. cc h), (λ h. absurd h))

  when_iff :
      (w : Option JobWhen) (branch : Str) (j : Job)
      → j.when ≡ w
      → ((tag_selected compile [] j ≡ true) × (branch_selected compile branch j ≡ true))
        ↔ RunsOn w branch
  unfolding tag_selected branch_selected
  when_iff none branch j e = ((λ h. tt), (λ h. (rw e refl, rw e refl)))
  when_iff (some w) branch j e = rw e (
    (λ (t, b).
        ((selected_iff w.tag w.skip_tag []).0 t, (selected_iff w.branch w.skip_branch branch).0 b)),
    (λ (t, b).
        ((selected_iff w.tag w.skip_tag []).1 t, (selected_iff w.branch w.skip_branch branch).1 b)),
  )

  -- A pull request to a branch runs the candidates whose lists say so.
  pub filter_jobs_iff :
      (cand : List Job) (branch : Str) (j : Job)
      → In j (filter_jobs compile cand pull_request branch) ↔ (In j cand × RunsOn j.when branch)
  unfolding filter_jobs incoming filter_tags filter_branches
  filter_jobs_iff cand branch j =
      let outer =
        In-filterb_iff (branch_selected compile branch) j
          (filterb (tag_selected compile []) cand) in
      let inner = In-filterb_iff (tag_selected compile []) j cand in
      (
        (λ m.
            let (k, b) = outer.0 m in
            let (c, t) = inner.0 k in (c, (when_iff j.when branch j refl).0 (t, b))),
        (λ (c, r). let (t, b) = (when_iff j.when branch j refl).1 r in outer.1 (inner.1 (c, t), b)),
      )

  module _ (ttl : ℕ) (job_id : Str) where
    -- What is asked for on a pull request: a job of just the candidates that run on its base branch, or none.
    abbrev pub Asks :
        (IntegrationJob → Option Str)
        → IntegrationConfig
        → PullRequest
        → Option IntegrationJob
        → Option Str
        → Type 0
    Asks create config pr none e =
        (e ≡ none)
        × (¬ IsStart pr.action
            ⊎ ((j : Job) → In j config.jobs.pre_submit_jobs → ¬ RunsOn j.when pr.base.ref))
    Asks create config pr (some job) e =
        IsStart pr.action
        × (job.spec.jobs ≢ [])
        × ((j : Job)
            → In j job.spec.jobs ↔ (In j config.jobs.pre_submit_jobs × RunsOn j.when pr.base.ref))
        × (job.spec.refs.base.sha ≡ pr.base.sha)
        × (job.spec.refs.pulls ≡ some (generate_pull pr ∷ []))
        × (e ≡ create job)

    module _ (create : IntegrationJob → Option Str) (webhook : Webhook) (config : IntegrationConfig)
        (pr : PullRequest) where
      has_name :
          5 ≤ length pr.head.sha
          → 5 ≤ length job_id
          → (name : Str) × (generate_name config.name pr.head.sha job_id ≡ some name)
      unfolding generate_name slice_to
      has_name a b = elim (Option-cases (generate_name config.name pr.head.sha job_id)) [
        | inl n ↦ ground (arith, a, b, n)
        | inr p ↦ p
      ]

      abbrev asked : Str → List Job → IntegrationJob
      asked name jobs =
          fresh_job config name job_id (
            pre_submit_spec compile ttl job_id (pr ∷ []) pr jobs webhook.repo webhook.sender config)

      abbrev Answers : Type 0
      Answers =
          (o : Option IntegrationJob) × (e : Option Str) × (handle compile ttl job_id create webhook
              config
            ≡ some (o, e))
          × Asks create config pr o e

      started :
          (jobs : List Job)
          → webhook.event_type ≡ pull_request
          → webhook.pull ≡ some pr
          → 5 ≤ length pr.head.sha
          → 5 ≤ length job_id
          → IsStart pr.action
          → filter_jobs compile config.jobs.pre_submit_jobs pull_request pr.base.ref ≡ jobs
          → Answers
      unfolding handle job_for generate_pre_submit named pre_submit_name fresh_job pre_submit_spec
          generate_pulls
      started [] t q a b h f = (
        none,
        none,
        ground (arith, t, q, f, (starts_jobs_iff pr.action).1 h),
        (
          refl,
          inr (λ j m r.
              subst (In j) f
                ((filter_jobs_iff config.jobs.pre_submit_jobs pr.base.ref j).1 (m, r))),
        ),
      )
      started (j ∷ jobs) t q a b h f =
          let (name, n) = has_name a b in
          (
            some (asked name (j ∷ jobs)),
            create (asked name (j ∷ jobs)),
            ground (arith, t, q, f, n, (starts_jobs_iff pr.action).1 h),
            (
              h,
              (λ e. cc e),
              (λ k.
                  subst
                    (λ l. In k l ↔ (In k config.jobs.pre_submit_jobs × RunsOn k.when pr.base.ref)) f
                    (filter_jobs_iff config.jobs.pre_submit_jobs pr.base.ref k)),
              refl,
              refl,
              refl,
            ),
          )

      -- Where the head commit and the random id have five digits at least, a pull request event is answered without a panic.
      -- A job is asked for if the pull request was opened or reopened, or has new commits, and some job runs on its base
      -- branch: the job runs exactly those jobs, on the base commit and the pull request of the event, and the error is that
      -- of the request. Else none is asked for, and there is no error. A job runs on a branch if it has no lists, or
      -- none of tags and one of branches, to run on or to skip, of which some pattern matches, or none.
      pub handle_pull :
          webhook.event_type ≡ pull_request
          → webhook.pull ≡ some pr
          → 5 ≤ length pr.head.sha
          → 5 ≤ length job_id
          → (o : Option IntegrationJob) × (e : Option Str) × (handle compile ttl job_id create
                webhook config
              ≡ some (o, e))
            × Asks create config pr o e
      unfolding handle job_for
      handle_pull t q a b = elim (Bool-cases (starts_jobs pr.action)) [
        | inl y ↦
            started (filter_jobs compile config.jobs.pre_submit_jobs pull_request pr.base.ref) t q a
              b ((starts_jobs_iff pr.action).0 y) refl
        | inr n ↦ (
          none,
          none,
          ground (arith, t, q, n),
          (refl, inl (λ h. ground (arith, n, (starts_jobs_iff pr.action).1 h))),
        )
      ]
