-- ===== src/Blocker/SyncStatus/Moves.antt =====
-- pkg/blocker/sync_status.go: where a pull request stands in the merge pool after its status is settled.
use cicd_operator.Base.{
  nat_eq, str_eq, get, del, get-put, get-del, ℕ, ◌≡◌, refl, ◌≢◌, Bool, none, some, arith,
}
use cicd_operator.Blocker.Pool.{
  BlockerStatus, waiting, mergeable, blocker_status_eq, blocker_status_beq, MergePool, slot,
  set_slot, pool_put, pool_remove,
}
use cicd_operator.Blocker.SyncStatus.{replace}

-- A pull request whose status changes stands under the new status alone, also when its removal
-- from the pool was asked for.
pub replace_moves :
    (old new : BlockerStatus) (leave : Bool) (id a : ℕ) (m : MergePool)
    → old ≢ new
    → (get id (slot new (replace old new leave id a m)) ≡ some a)
      × (get id (slot old (replace old new leave id a m)) ≡ none)
unfolding replace pool_put pool_remove slot set_slot blocker_status_beq
replace_moves waiting waiting leave id a m n = absurd (n refl)
replace_moves mergeable mergeable leave id a m n = absurd (n refl)
replace_moves waiting mergeable leave id a m n = ground (
  arith,
  get-put id id a m.mergeable_prs,
  get-del id id m.waiting_prs,
  get-del id id (del id m.waiting_prs),
)
replace_moves mergeable waiting leave id a m n = ground (
  arith,
  get-put id id a m.waiting_prs,
  get-del id id m.mergeable_prs,
  get-del id id (del id m.mergeable_prs),
)
