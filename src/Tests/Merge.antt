-- ===== src/Tests/Merge.antt =====
-- pkg/blocker's pool and merger at one pull request that meets its query.
use cicd_operator.Base.{
  Map, ℕ, nat_eq, length, str, str_beq, str_eq, get, ◌<◌, ◌≡◌, refl, ◌↔◌, true, false, none, some,
  [], ◌∷◌, arith,
}
use cicd_operator.Api.{
  JobState, failed, IntegrationConfig, MergeConfig, ConfigJobs, GitConfig, github, squash,
}
use cicd_operator.Git.{pull_request}
use cicd_operator.Dispatcher.{filter_jobs, filter_tags, filter_branches, incoming}
use cicd_operator.Blocker.Pool.{
  waiting, mergeable, Tracked, MergePool, NamespacedName, Batch, PrPool, slot, search_pool,
  in_batch,
}
use cicd_operator.Blocker.SyncPool.{track, sync_pr}
use cicd_operator.Blocker.SyncPool.Places.{sync_pr_places}
use cicd_operator.Blocker.SyncStatus.{replace}
use cicd_operator.Blocker.SyncStatus.Moves.{replace_moves}
use cicd_operator.Blocker.Checks.Conditions.{Meets}
use cicd_operator.Blocker.Merge.{
  World, MergeCall, Round, sort_by_id, insert_by_id, merge_pull_request, check_base_sha,
  handle_batch, handle_oldest, merge_one_pool, commit_message, merge_call, get_merge_method,
  labelled_method, default_method, tested_on, set_batch, unchanged,
}
use cicd_operator.Blocker.Merge.BaseSha.{TestedOn, check_base_sha_iff}
use cicd_operator.Blocker.Merge.Rounds.{
  batch_size, MayMerge, merge_one_pool-MayMerge, failed_shrinks,
}
use cicd_operator.Tests.Blocker.{lgtm_query, reviewed}

abbrev ready_slots : MergePool
ready_slots = record { waiting_prs = []; mergeable_prs = (7, 0) ∷ [] }

abbrev tracked : Tracked
tracked = record {
  raw = reviewed;
  blocker_status = mergeable;
  blocker_description = [];
  latest_sha = str "bbbbb";
  dirty = false;
  statuses = [];
}

abbrev config_name : NamespacedName
config_name = record { namespace = str "ci"; name = str "config" }

abbrev ready : PrPool
ready = record {
  config_name = config_name;
  store = (0, tracked) ∷ [];
  next_address = 1;
  pull_requests = (7, 0) ∷ [];
  merge_pool = ready_slots;
  current_batch = none;
}

abbrev lgtm_config : MergeConfig
lgtm_config = record { method = squash; commit_template = []; query = lgtm_query }

abbrev config : IntegrationConfig
config =
    let git : GitConfig = record {
      type = github;
      repository = str "r";
      api_url = [];
      token = some (record { value = str "t"; value_from = none });
    } in
    let jobs : ConfigJobs = record {
      pre_submit_jobs = [];
      post_submit_jobs = [];
      periodic_jobs = [];
    } in
    record {
      name = str "config";
      namespace = str "ci";
      git = git;
      workspaces = [];
      jobs = jobs;
      merge_config = some lgtm_config;
      timeout = none;
      param_config = none;
    }

-- A server that accepts every merge, and a cluster that knows each job in one state.
abbrev world_with : JobState → World
world_with s = record {
  squash_label = [];
  merge_label = [];
  branch_sha = λ b. some (str "aaaaa");
  message = λ t c u. none;
  accepts = λ cs c. true;
  job_state = λ n. some s;
  compile = λ p. none;
  ttl = 1;
  job_id = str "abcdefgh";
}

abbrev merged_call : MergeCall
merged_call = record { id = 7; sha = str "bbbbb"; method = squash; message = [] }

abbrev merged_round : Round
merged_round = record { pool = ready; calls = merged_call ∷ []; job = none }

replace_moves_example :
    (get 7 (slot waiting (replace mergeable waiting true 7 0 ready_slots)) ≡ some 0)
    × (get 7 (slot mergeable (replace mergeable waiting true 7 0 ready_slots)) ≡ none)
replace_moves_example = replace_moves mergeable waiting true 7 0 ready_slots (λ e. cc e)

sync_pr_places_example :
    (search_pool 7 (sync_pr (str "hold") lgtm_query reviewed ready).merge_pool ≡ none)
    ↔ ((¬ Meets (str "hold") lgtm_query reviewed) × (in_batch 7 (track reviewed ready).1 ≡ false))
sync_pr_places_example = sync_pr_places (str "hold") lgtm_query reviewed ready

check_base_sha_iff_example :
    (check_base_sha (world_with failed) config lgtm_config (str "main") tracked ≡ some true)
    ↔ TestedOn (str "aaaaa") (filter_jobs (λ p. none) [] pull_request (str "refs/heads/main")) []
check_base_sha_iff_example =
    check_base_sha_iff (world_with failed) config lgtm_config (str "main") (str "aaaaa") tracked
      refl

round_merges : merge_one_pool (world_with failed) config lgtm_config ready [] ≡ some merged_round
unfolding merge_one_pool handle_oldest sort_by_id insert_by_id check_base_sha tested_on filter_jobs
    filter_tags filter_branches incoming merge_pull_request commit_message merge_call
    get_merge_method labelled_method default_method unchanged get str_beq
round_merges = refl

merge_one_pool-MayMerge_example : MayMerge (world_with failed) config lgtm_config ready none
merge_one_pool-MayMerge_example =
    merge_one_pool-MayMerge (world_with failed) config lgtm_config ready [] merged_round
      round_merges (λ e. cc e)

abbrev single : Batch
single = record { prs = 0 ∷ []; job = config_name; processing = false }

abbrev given_up : Round
given_up = record { pool = ready; calls = []; job = none }

batch_fails : handle_batch (world_with failed) config lgtm_config single ready [] ≡ some given_up
unfolding handle_batch set_batch
batch_fails = refl

failed_shrinks_example : batch_size none < length single.prs
failed_shrinks_example =
    failed_shrinks (world_with failed) config lgtm_config single ready [] given_up batch_fails refl
      (omega arith)

abbrev entries : Map ℕ ℕ
entries = (7, 0) ∷ []

abbrev objects : Map ℕ Tracked
objects = (0, tracked) ∷ []
