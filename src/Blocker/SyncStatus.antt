-- ===== src/Blocker/SyncStatus.antt =====
-- pkg/blocker/sync_status.go: one round of the status syncer for one repository. `fetch` is `GetPullRequest`,
-- `list_statuses` is `ListCommitStatuses`; a result `none` is an error.
pub mod Moves
use cicd_operator.Base.{
  if◌then◌else◌, ◌==◌, nat_eq, Str, str, str_eq, Map, get, put, ℕ, Bool, true, false, not, ◌&&◌,
  ◌||◌, Option, none, some, List, [], ◌∷◌,
}
use cicd_operator.Api.{MergeQuery}
use cicd_operator.Git.{PullRequest, CommitStatus}
use cicd_operator.Blocker.Checks.{check_conditions_full}
use cicd_operator.Blocker.Pool.{
  BlockerStatus, waiting, mergeable, blocker_status_eq, Tracked, MergePool, PrPool, slot, pool_put,
  pool_remove, in_batch,
}

unfoldable pub by_context : List CommitStatus → Map Str CommitStatus → Map Str CommitStatus
unfolding put
by_context [] m = m
by_context (c ∷ cs) m = by_context cs (put c.context c m)

-- The status that a check asks for, and its description.
unfoldable pub new_status : Bool → BlockerStatus
new_status true = mergeable
new_status false = waiting

unfoldable pub new_description : Bool → Str → Str
new_description true desc = str "In merge pool."
new_description false desc = desc

unfoldable pub update_cache : BlockerStatus → Str → Tracked → Tracked
update_cache status desc t = record t {
  blocker_status = status;
  blocker_description = desc;
  dirty = t.dirty || not (status == t.blocker_status) || not (desc == t.blocker_description);
}

-- The map entry of a pull request: a removal, if it is asked for and the pull request is in no batch, and
-- then a move, if the status differs.
unfoldable pub replace : BlockerStatus → BlockerStatus → Bool → ℕ → ℕ → MergePool → MergePool
unfolding pool_put pool_remove
replace old new leave id a m =
    let m' = if leave then pool_remove old id m else m in
    if new == old then m' else pool_put new id a (pool_remove old id m')

module _ (block_label : Str) (q : MergeQuery) (fetch : ℕ → Option PullRequest)
    (list_statuses : Str → Option (List CommitStatus)) where
  -- `reflectPRStatus`: the object is changed as far as the requests succeed; `false` is an error.
  unfoldable pub reflect_pr_status : Tracked → Bool × Tracked
  unfolding by_context
  reflect_pr_status t = elim (fetch t.raw.id) [
    | none ↦ (false, t)
    | some pr ↦ elim (list_statuses pr.head.sha) [
      | none ↦ (false, record t { raw = pr })
      | some cs ↦ (true, record t { raw = pr; statuses = by_context cs [] })
    ]
  ]

  -- From the fetched object on.
  unfoldable pub settle : BlockerStatus → ℕ → ℕ → Tracked → PrPool → PrPool
  unfolding new_status new_description update_cache replace in_batch put
  settle old id a t p =
      let (ok, leave, desc) = check_conditions_full block_label q t.raw t.statuses in
      let p' = record p { store = put a t p.store } in
      record p' {
        merge_pool = replace old (new_status ok) (leave && not (in_batch id p')) id a p.merge_pool;
        store = put a (update_cache (new_status ok) (new_description ok desc) t) p'.store;
      }

  unfoldable pub sync_entry : BlockerStatus → ℕ × ℕ → PrPool → PrPool
  unfolding reflect_pr_status settle get put
  sync_entry old (id, a) p = elim (get a p.store) [
    | none ↦ p
    | some t ↦
        let (fetched, t') = reflect_pr_status t in
        if fetched then settle old id a t' p else record p { store = put a t' p.store }
  ]

  unfoldable pub sync_entries : BlockerStatus → Map ℕ ℕ → PrPool → PrPool
  unfolding sync_entry
  sync_entries old [] p = p
  sync_entries old (e ∷ m) p = sync_entries old m (sync_entry old e p)

  -- `range` visits the two statuses in either order. In the inner loop only the entry at hand leaves the
  -- map and none enters it, so the entries at its start are those it visits.
  unfoldable pub sync_one_status : BlockerStatus → BlockerStatus → PrPool → PrPool
  unfolding sync_entries slot
  sync_one_status first second p =
      let p' = sync_entries first (slot first p.merge_pool) p in
      sync_entries second (slot second p'.merge_pool) p'

-- A commit status that is sent: of which commit, the blocker's state and its description.
pub record Report : Type 0 where
  pub sha : Str
  pub status : BlockerStatus
  pub description : Str

-- `reportCommitStatus`: each dirty object is reported once; an error of the request is only logged.
unfoldable pub report_commit_status : Map ℕ ℕ → Map ℕ Tracked → List Report × Map ℕ Tracked
unfolding get put
report_commit_status [] store = ([], store)
report_commit_status ((id, a) ∷ prs) store = elim (get a store) [
  | none ↦ report_commit_status prs store
  | some t ↦
      let clean = put a (record t { dirty = false }) store in
      let (reports, store') = report_commit_status prs (if t.dirty then clean else store) in
      (
        if t.dirty
            then record {
              sha = t.raw.head.sha;
              status = t.blocker_status;
              description = t.blocker_description;
            }
              ∷ reports
            else reports,
        store',
      )
]
