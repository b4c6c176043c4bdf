-- ===== src/Blocker/Merge.antt =====
-- pkg/blocker/merge.go: one round of the merger for one repository. The git server's answer to a merge may depend
-- on the merges that were asked before it. A result `none` is a panic. Sleeps are left out.
pub mod Order
pub mod Rounds
pub mod BaseSha
use cicd_operator.Base.{
  leb, if◌then◌else◌, ◌==◌, nat_eq, length, take, filterb, Str, str, str_eq, Map, get, pos, negsuc,
  ℕ, zero, suc, refl, Bool, true, false, not, ◌&&◌, Option, none, some, List, [], ◌∷◌, arith,
}
use cicd_operator.Api.{
  JobState, completed, failed, Job, IntegrationConfig, IntegrationJob, MergeConfig, MergeMethod,
  no_method, squash, merge, get_branch,
}
use cicd_operator.Git.{PullRequest, CommitStatus, Repository, User, pull_request}
use cicd_operator.Dispatcher.{filter_jobs, generate_pre_submit}
use cicd_operator.PipelineManager.Description.{parse_base_from_description}
use cicd_operator.Blocker.Pool.{Tracked, NamespacedName, Batch, PrPool}

abbrev pub max_batch_size : ℕ
max_batch_size = 10

-- A merge that is asked of the git server.
pub record MergeCall : Type 0 where
  pub id : ℕ
  pub sha : Str
  pub method : MergeMethod
  pub message : Str

-- The cluster, the git server and `configs`. `message` lists the commits and runs the template; `job_id` is the
-- random id of the job that a round creates.
pub record World : Type 0 where
  pub squash_label : Str
  pub merge_label : Str
  pub branch_sha : Str → Option Str
  pub message : Str → List MergeCall → Tracked → Option Str
  pub accepts : List MergeCall → MergeCall → Bool
  pub job_state : NamespacedName → Option JobState
  pub compile : Str → Option (Str → Bool)
  pub ttl : ℕ
  pub job_id : Str

-- What a round leaves: the pool, the merges asked so far, latest first, and the job asked of the cluster.
pub record Round : Type 0 where
  pub pool : PrPool
  pub calls : List MergeCall
  pub job : Option IntegrationJob

-- The labels that choose the method, first match.
unfoldable pub labelled_method : Str → Str → List Str → MergeMethod → MergeMethod
labelled_method squash_label merge_label [] method = method
labelled_method squash_label merge_label (l ∷ labels) method =
    let rest = labelled_method squash_label merge_label labels method in
    if not (squash_label == []) && l == squash_label
    then squash
    else if not (merge_label == []) && l == merge_label
    then merge
    else rest

unfoldable pub default_method : MergeMethod → MergeMethod
default_method no_method = merge
default_method squash = squash
default_method merge = merge

-- `sort.Sort` by id; the ids of one repository are distinct, so the result does not depend on the method.
unfoldable pub insert_by_id : ℕ × Tracked → List (ℕ × Tracked) → List (ℕ × Tracked)
insert_by_id x [] = x ∷ []
insert_by_id x (y ∷ l) =
    let rest = insert_by_id x l in if leb x.1.raw.id y.1.raw.id then x ∷ y ∷ l else y ∷ rest

-- The objects of a map of pull requests, sorted by id.
unfoldable pub sort_by_id : Map ℕ ℕ → Map ℕ Tracked → List (ℕ × Tracked)
unfolding insert_by_id get
sort_by_id [] store = []
sort_by_id ((id, a) ∷ prs) store =
    let rest = sort_by_id prs store in
    elim (get a store) [ none ↦ rest | some t ↦ insert_by_id (a, t) rest ]

unfoldable pub on_branch : Str → ℕ × Tracked → Bool
unfolding get_branch
on_branch branch (a, t) = get_branch t.raw.base.ref == branch

-- The first pull requests of the branch, up to the size of a batch.
unfoldable pub collect_batch : Str → List (ℕ × Tracked) → List (ℕ × Tracked)
unfolding on_branch
collect_batch branch candidates = take max_batch_size (filterb (on_branch branch) candidates)

abbrev pub addresses : List (ℕ × Tracked) → List ℕ
addresses [] = []
addresses ((a, t) ∷ l) = a ∷ addresses l

-- The pull requests at some addresses: `getGitPRsFromPRs`.
unfoldable pub raw_prs : List ℕ → Map ℕ Tracked → List PullRequest
unfolding get
raw_prs [] store = []
raw_prs (a ∷ prs) store =
    let rest = raw_prs prs store in elim (get a store) [ none ↦ rest | some t ↦ t.raw ∷ rest ]

-- All but the last.
abbrev pub drop_last : List ℕ → List ℕ
drop_last [] = []
drop_last (a ∷ []) = []
drop_last (a ∷ b ∷ l) = a ∷ drop_last (b ∷ l)

abbrev pub bot : User
bot = record { id = 0; name = str "tmax-cicd-bot"; email = str "bot@cicd.tmax.io" }

-- The loop of `checkBaseSHA`.
unfoldable pub tested_on : Str → List Job → Map Str CommitStatus → Bool
unfolding get parse_base_from_description
tested_on latest [] statuses = true
tested_on latest (j ∷ jobs) statuses =
    let rest = tested_on latest jobs statuses in
    elim (get j.name statuses) [
      | none ↦ rest
      | some s ↦ if parse_base_from_description s.description == latest then rest else false
    ]

module _ (w : World) (ic : IntegrationConfig) (mc : MergeConfig) where
  unfoldable pub get_merge_method : PullRequest → MergeMethod
  unfolding labelled_method default_method
  get_merge_method pr =
      labelled_method w.squash_label w.merge_label pr.labels (default_method mc.method)

  -- The message of the merge commit; `none` is an error.
  unfoldable pub commit_message : List MergeCall → Tracked → Option Str
  commit_message calls t =
      if mc.commit_template == [] then some [] else w.message mc.commit_template calls t

  unfoldable pub merge_call : Tracked → Str → MergeCall
  unfolding get_merge_method
  merge_call t text = record {
    id = t.raw.id;
    sha = t.raw.head.sha;
    method = get_merge_method t.raw;
    message = text;
  }

  unfoldable pub merge_pull_request : List MergeCall → Tracked → Bool × List MergeCall
  unfolding commit_message merge_call
  merge_pull_request calls t = elim (commit_message calls t) [
    | none ↦ (false, calls)
    | some text ↦ (w.accepts calls (merge_call t text), merge_call t text ∷ calls)
  ]

  -- So many tries, until one succeeds.
  unfoldable pub try_times : ℕ → List MergeCall → Tracked → Bool × List MergeCall
  unfolding merge_pull_request
  try_times zero calls t = (false, calls)
  try_times (suc n) calls t =
      let (merged, calls') = merge_pull_request calls t in
      let again = try_times n calls' t in if merged then (true, calls') else again

  unfoldable pub try_merge : List MergeCall → Tracked → Bool × List MergeCall
  unfolding try_times
  try_merge calls t = try_times 3 calls t

  -- The pull requests of the batch in turn, up to the first that is not merged; those left over.
  unfoldable pub merge_all : List ℕ → Map ℕ Tracked → List MergeCall → List ℕ × List MergeCall
  unfolding try_merge get
  merge_all [] store calls = ([], calls)
  merge_all (a ∷ prs) store calls = elim (get a store) [
    | none ↦ (a ∷ prs, calls)
    | some t ↦
        let (merged, calls') = try_merge calls t in
        let rest = merge_all prs store calls' in if merged then rest else (a ∷ prs, calls')
  ]

  unfoldable pub check_base_sha : Str → Tracked → Option Bool
  unfolding tested_on filter_jobs
  check_base_sha base_branch t = elim (w.branch_sha base_branch) [
    | none ↦ none
    | some latest ↦ some (
        tested_on latest (filter_jobs w.compile ic.jobs.pre_submit_jobs pull_request t.raw.base.ref)
          t.statuses)
  ]

  -- `createIntegrationJobForBatch`: the job that is asked for and its name; no job is a nil pointer.
  unfoldable pub create_job_for_batch : List PullRequest → Option (IntegrationJob × NamespacedName)
  unfolding generate_pre_submit
  create_job_for_batch [] = none
  create_job_for_batch (pr ∷ prs) =
      let repo : Repository = record { name = ic.git.repository; url = pr.url } in
      elim (generate_pre_submit w.compile w.ttl w.job_id (pr ∷ prs) repo bot ic) [
        | none ↦ none
        | some none ↦ none
        | some (some job) ↦ some (job, record { namespace = job.namespace; name = job.name })
      ]

  -- A batch of these pull requests with a new job; the name is kept also when the cluster refuses the job.
  unfoldable pub start_batch : List ℕ → PrPool → List MergeCall → Option Round
  unfolding create_job_for_batch raw_prs
  start_batch prs p calls = elim (create_job_for_batch (raw_prs prs p.store)) [
    | none ↦ none
    | some (job, name) ↦
        let b : Batch = record { prs = prs; job = name; processing = false } in
        some (record { pool = record p { current_batch = some b }; calls = calls; job = some job })
  ]

  unfoldable pub unchanged : PrPool → List MergeCall → Option Round
  unchanged p calls = some (record { pool = p; calls = calls; job = none })

  unfoldable pub set_batch : Option Batch → PrPool → List MergeCall → Option Round
  set_batch b p calls =
      some (record { pool = record p { current_batch = b }; calls = calls; job = none })

  -- After the merges of a batch: those left over stay in it.
  unfoldable pub left_over : Batch → List ℕ × List MergeCall → PrPool → Option Round
  unfolding set_batch
  left_over b ([], calls) p = set_batch none p calls
  left_over b (a ∷ prs, calls) p =
      let b' : Batch = record { prs = a ∷ prs; job = b.job; processing = false } in
      set_batch (some b') p calls

  unfoldable pub handle_batch : Batch → PrPool → List MergeCall → Option Round
  unfolding merge_all left_over start_batch set_batch
  handle_batch b p calls = elim (w.job_state b.job) [
    | some completed ↦ left_over b (merge_all b.prs p.store calls) p
    | some failed ↦
        if leb (length b.prs) 1
        then set_batch none p calls
        else start_batch (drop_last b.prs) p calls
    | _ ↦ set_batch (some (record b { processing = false })) p calls
  ]

  -- The oldest pull request is merged, if it was tested on the latest base; a batch is tested if not.
  unfoldable pub handle_oldest :
      ℕ × Tracked → List (ℕ × Tracked) → PrPool → List MergeCall → Option Round
  unfolding check_base_sha merge_pull_request collect_batch start_batch unchanged get_branch
  handle_oldest (a, t) candidates p calls =
      let branch = get_branch t.raw.base.ref in
      elim (check_base_sha branch t) [
        | none ↦ unchanged p calls
        | some true ↦ unchanged p (merge_pull_request calls t).1
        | some false ↦ start_batch (addresses (collect_batch branch candidates)) p calls
      ]

  unfoldable pub merge_one_pool : PrPool → List MergeCall → Option Round
  unfolding handle_batch handle_oldest sort_by_id unchanged
  merge_one_pool p calls = elim p.current_batch [
    | some b ↦ if b.processing then unchanged p calls else handle_batch b p calls
    | none ↦ elim (sort_by_id p.merge_pool.mergeable_prs p.store) [
      | [] ↦ unchanged p calls
      | oldest ∷ rest ↦ handle_oldest oldest (oldest ∷ rest) p calls
    ]
  ]

-- `retestAndMergeOnePool`: nothing without the config, its merge config, or a git client.
unfoldable pub retest_and_merge_one_pool :
    World → Option IntegrationConfig → Bool → PrPool → List MergeCall → Option Round
unfolding merge_one_pool unchanged
retest_and_merge_one_pool w none client p calls =
    some (record { pool = p; calls = calls; job = none })
retest_and_merge_one_pool w (some ic) client p calls = elim ic.merge_config [
  | none ↦ some (record { pool = p; calls = calls; job = none })
  | some mc ↦
      if client
      then merge_one_pool w ic mc p calls
      else some (record { pool = p; calls = calls; job = none })
]
