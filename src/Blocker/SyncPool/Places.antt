-- ===== src/Blocker/SyncPool/Places.antt =====
-- pkg/blocker/sync_pool.go: which pull requests are in the merge pool after they were synchronised.
use cicd_operator.Base.{
  Bool-cases, Option-cases, nat_eq, Str, str_eq, get-put, get-del, ℕ, ◌≡◌, ◌≢◌, ◌↔◌, inl, inr,
  false, none, arith,
}
use cicd_operator.Api.{MergeQuery}
use cicd_operator.Git.{PullRequest}
use cicd_operator.Blocker.Checks.{check_conditions_simple}
use cicd_operator.Blocker.Checks.Conditions.{Meets, check_conditions_simple_iff}
use cicd_operator.Blocker.Pool.{
  BlockerStatus, waiting, mergeable, MergePool, PrPool, slot, set_slot, search_pool, pool_put,
  pool_delete, in_batch,
}
use cicd_operator.Blocker.SyncPool.{track, status_at, admit, refuse, sync_pr}

search-put :
    (s : BlockerStatus) (id a : ℕ) (m : MergePool) → search_pool id (pool_put s id a m) ≢ none
unfolding search_pool pool_put slot set_slot
search-put waiting id a m h = ground (arith, h, get-put id id a m.waiting_prs)
search-put mergeable id a m h = ground (arith, h, get-put id id a m.mergeable_prs)

search-delete : (id : ℕ) (m : MergePool) → search_pool id (pool_delete id m) ≡ none
unfolding search_pool pool_delete
search-delete id m = ground (arith, get-del id id m.waiting_prs, get-del id id m.mergeable_prs)

admitted : (id a : ℕ) (p : PrPool) → search_pool id (admit id a p).merge_pool ≢ none
unfolding admit
admitted id a p h = elim (Option-cases (search_pool id p.merge_pool)) [
  | inl e ↦ search-put (status_at a p) id a p.merge_pool (ground (arith, h, e))
  | inr (b, e) ↦ ground (arith, h, e)
]

-- After a pull request was synchronised it is out of the merge pool exactly when it does not meet the
-- merge query and is in no batch that is being tested.
pub sync_pr_places :
    (block_label : Str) (q : MergeQuery) (raw : PullRequest) (p : PrPool)
    → (search_pool raw.id (sync_pr block_label q raw p).merge_pool ≡ none)
      ↔ ((¬ Meets block_label q raw) × (in_batch raw.id (track raw p).1 ≡ false))
unfolding sync_pr refuse
sync_pr_places block_label q raw p =
    let (a, p') = track raw p in
    let m = check_conditions_simple_iff block_label q raw in
    let d = search-delete raw.id p'.merge_pool in
    let i = admitted raw.id a p' in
    elim (Bool-cases ((check_conditions_simple block_label q raw).0)) [
      | inl e ↦ ((λ h. absurd (i (ground (arith, h, e)))), λ k. absurd (k.0 (m.0 e)))
      | inr e ↦ elim (Bool-cases (in_batch raw.id p')) [
        | inl b ↦
            ((λ h. absurd (i (ground (arith, h, e, b)))), λ k. absurd (ground (arith, k.1, b)))
        | inr b ↦ ((λ h. ((λ t. cc (m.1 t, e)), b)), λ k. ground (arith, d, e, b))
      ]
    ]
