-- ===== src/Blocker/SyncPool.antt =====
-- pkg/blocker/sync_pool.go: one round of the pool syncer for one repository, from the listed pull requests on.
pub mod Places
use cicd_operator.Base.{
  if◌then◌else◌, ◌==◌, nat_eq, Str, str, str_eq, Map, get, put, del, ℕ, suc, Bool, false, not, ◌||◌,
  none, some, List, [], ◌∷◌, ◌++◌,
}
use cicd_operator.Api.{MergeQuery}
use cicd_operator.Git.{PullRequest}
use cicd_operator.Blocker.Checks.{check_conditions_simple}
use cicd_operator.Blocker.Pool.{
  BlockerStatus, waiting, blocker_status_eq, Tracked, PrPool, search_pool, pool_put, pool_delete,
  modify, in_batch,
}

abbrev pub default_message : Str
default_message = str "Not mergeable."

-- A pull request that is seen for the first time.
unfoldable pub new_tracked : PullRequest → Tracked
new_tracked raw = record {
  raw = raw;
  blocker_status = waiting;
  blocker_description = default_message;
  latest_sha = raw.head.sha;
  dirty = false;
  statuses = [];
}

-- The address of the object of a listed pull request, whose `PullRequest` is then the listed one.
unfoldable pub track : PullRequest → PrPool → ℕ × PrPool
unfolding new_tracked modify get put
track raw p = elim (get raw.id p.pull_requests) [
  | none ↦ (
    p.next_address,
    record p {
      store = put p.next_address (new_tracked raw) p.store;
      next_address = suc p.next_address;
      pull_requests = put raw.id p.next_address p.pull_requests;
    },
  )
  | some a ↦ (a, record p { store = modify a (λ t. record t { raw = raw }) p.store })
]

-- The cache of a pull request that is no candidate.
unfoldable pub set_refused : Str → Str → Tracked → Tracked
set_refused desc sha t = record t {
  blocker_status = waiting;
  blocker_description = desc;
  latest_sha = sha;
  dirty =
      t.dirty
      || not (t.blocker_status == waiting)
      || not (t.blocker_description == desc)
      || not (t.latest_sha == sha);
}

unfoldable pub status_at : ℕ → PrPool → BlockerStatus
unfolding get
status_at a p = elim (get a p.store) [ none ↦ waiting | some t ↦ t.blocker_status ]

-- A candidate enters the merge pool if it is not in it.
unfoldable pub admit : ℕ → ℕ → PrPool → PrPool
unfolding search_pool pool_put status_at
admit id a p = elim (search_pool id p.merge_pool) [
  | some b ↦ p
  | none ↦ record p { merge_pool = pool_put (status_at a p) id a p.merge_pool }
]

unfoldable pub refuse : ℕ → ℕ → Str → Str → PrPool → PrPool
unfolding pool_delete modify set_refused
refuse id a desc sha p = record p {
  merge_pool = pool_delete id p.merge_pool;
  store = modify a (set_refused desc sha) p.store;
}

module _ (block_label : Str) (q : MergeQuery) where
  unfoldable pub sync_pr : PullRequest → PrPool → PrPool
  unfolding track admit refuse in_batch
  sync_pr raw p =
      let (a, p') = track raw p in
      let (candidate, msg) = check_conditions_simple block_label q raw in
      if candidate || in_batch raw.id p'
      then admit raw.id a p'
      else refuse raw.id a (default_message ++ (b' ' ∷ msg)) raw.head.sha p'

  unfoldable pub sync_prs : List PullRequest → PrPool → PrPool
  unfolding sync_pr
  sync_prs [] p = p
  sync_prs (raw ∷ prs) p = sync_prs prs (sync_pr raw p)

unfoldable pub is_listed : ℕ → List PullRequest → Bool
is_listed id [] = false
is_listed id (raw ∷ prs) = raw.id == id || is_listed id prs

-- The pull requests that are not listed any more leave both maps.
unfoldable pub drop_closed : List PullRequest → Map ℕ ℕ → PrPool → PrPool
unfolding is_listed pool_delete del
drop_closed prs [] p = p
drop_closed prs ((id, a) ∷ m) p = drop_closed prs m (
    if is_listed id prs then p else record p {
      merge_pool = pool_delete id p.merge_pool;
      pull_requests = del id p.pull_requests;
    })

unfoldable pub sync_one_pool : Str → MergeQuery → List PullRequest → PrPool → PrPool
unfolding sync_prs drop_closed
sync_one_pool block_label q prs p =
    let p' = sync_prs block_label q prs p in drop_closed prs p'.pull_requests p'
