-- ===== src/Blocker/Merge/BaseSha.antt =====
-- pkg/blocker/merge.go: when the statuses of a pull request are those of the latest base.
use cicd_operator.Base.{
  Option-cases, nat_eq, In, Str, str_beq_iff, str_eq, Map, get, ◌≡◌, refl, ap, ◌↔◌, inl, inr, true,
  some, List, [], ◌∷◌, arith,
}
use cicd_operator.Api.{Job, IntegrationConfig, MergeConfig}
use cicd_operator.Git.{CommitStatus, pull_request}
use cicd_operator.Dispatcher.{filter_jobs}
use cicd_operator.PipelineManager.Description.{parse_base_from_description}
use cicd_operator.Blocker.Pool.{Tracked}
use cicd_operator.Blocker.Merge.{World, tested_on, check_base_sha}

-- Each of the jobs that has a status has run on that base.
abbrev pub TestedOn : Str → List Job → Map Str CommitStatus → Type 0
TestedOn latest jobs statuses =
    (j : Job) (s : CommitStatus)
    → In j jobs
    → get j.name statuses ≡ some s
    → parse_base_from_description s.description ≡ latest

tested_on→TestedOn :
    (latest : Str) (jobs : List Job) (statuses : Map Str CommitStatus)
    → tested_on latest jobs statuses ≡ true
    → TestedOn latest jobs statuses
unfolding tested_on
tested_on→TestedOn latest [] statuses h j s m g = absurd m
tested_on→TestedOn latest (i ∷ jobs) statuses h j s (inl e) g = ground (
  arith,
  h,
  g,
  ap (λ (x : Job). get x.name statuses) e,
  str_beq_iff (parse_base_from_description s.description) latest,
)
tested_on→TestedOn latest (i ∷ jobs) statuses h j s (inr m) g =
    tested_on→TestedOn latest jobs statuses (ground (arith, h)) j s m g

TestedOn→tested_on :
    (latest : Str) (jobs : List Job) (statuses : Map Str CommitStatus)
    → TestedOn latest jobs statuses
    → tested_on latest jobs statuses ≡ true
unfolding tested_on
TestedOn→tested_on latest [] statuses h = refl
TestedOn→tested_on latest (i ∷ jobs) statuses h =
    let rest = TestedOn→tested_on latest jobs statuses (λ j s m g. h j s (inr m) g) in
    elim (Option-cases (get i.name statuses)) [
      | inl e ↦ ground (arith, e, rest)
      | inr (s, e) ↦ ground (
        arith,
        e,
        rest,
        h i s (inl refl) e,
        str_beq_iff (parse_base_from_description s.description) latest,
      )
    ]

module _ (w : World) (ic : IntegrationConfig) (mc : MergeConfig) where
  -- Where the git server knows the branch's latest commit, the pull request counts as tested on it
  -- exactly when each job that its base branch selects, if it has a status at all, has that commit in
  -- the status's description.
  pub check_base_sha_iff :
      (branch latest : Str) (t : Tracked)
      → w.branch_sha branch ≡ some latest
      → (check_base_sha w ic mc branch t ≡ some true)
        ↔ TestedOn latest
            (filter_jobs w.compile ic.jobs.pre_submit_jobs pull_request t.raw.base.ref)
            t.statuses
  unfolding check_base_sha
  check_base_sha_iff branch latest t e = (
    (λ h. tested_on→TestedOn latest _ t.statuses (ground (arith, h, e))),
    λ h. let k = TestedOn→tested_on latest _ t.statuses h in ground (arith, e, k),
  )
