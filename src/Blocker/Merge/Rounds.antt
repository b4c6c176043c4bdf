-- ===== src/Blocker/Merge/Rounds.antt =====
-- pkg/blocker/merge.go: when a round asks for a merge, and how batches shrink.
use cicd_operator.Base.{
  nat_eq, length, str_eq, ℕ, ◌-◌, ◌<◌, ◌≡◌, refl, ◌≢◌, ◌⊎◌, inl, inr, true, false, Option, none,
  some, List, [], ◌∷◌, arith,
}
use cicd_operator.Api.{completed, failed, IntegrationConfig, MergeConfig, get_branch}
use cicd_operator.Blocker.Pool.{Tracked, Batch, PrPool}
use cicd_operator.Blocker.Merge.{
  World, MergeCall, Round, sort_by_id, drop_last, check_base_sha, start_batch, unchanged, set_batch,
  handle_batch, handle_oldest, merge_one_pool,
}

abbrev pub batch_size : Option Batch → ℕ
batch_size none = 0
batch_size (some b) = length b.prs

length-drop_last : (l : List ℕ) → length (drop_last l) ≡ length l - 1
length-drop_last [] = refl
length-drop_last (a ∷ []) = refl
length-drop_last (a ∷ b ∷ l) = omega (arith, length-drop_last (b ∷ l))

module _ (w : World) (ic : IntegrationConfig) (mc : MergeConfig) where
  start_batch-calls :
      (prs : List ℕ) (p : PrPool) (calls : List MergeCall) (r : Round)
      → start_batch w ic mc prs p calls ≡ some r
      → (r.calls ≡ calls) × (batch_size r.pool.current_batch ≡ length prs)
  unfolding start_batch
  start_batch-calls prs p calls r h = ground (arith, h)

  handle_batch-calls :
      (b : Batch) (p : PrPool) (calls : List MergeCall) (r : Round)
      → handle_batch w ic mc b p calls ≡ some r
      → (r.calls ≡ calls) ⊎ (w.job_state b.job ≡ some completed)
  unfolding handle_batch set_batch
  handle_batch-calls b p calls r h =
      ground (arith, h, start_batch-calls (drop_last b.prs) p calls r)

  -- Why a round may ask for a merge: the batch's job has completed, or there is no batch and the oldest
  -- pull request of the pool was tested on the latest base.
  pub record Tested (b : Batch) : Type 0 where
    pub idle : b.processing ≡ false
    pub done : w.job_state b.job ≡ some completed

  pub record Fresh (p : PrPool) : Type 0 where
    pub address : ℕ
    pub oldest : Tracked
    pub others : List (ℕ × Tracked)
    pub first : sort_by_id p.merge_pool.mergeable_prs p.store ≡ (address, oldest) ∷ others
    pub tested : check_base_sha w ic mc (get_branch oldest.raw.base.ref) oldest ≡ some true

  abbrev pub MayMerge : PrPool → Option Batch → Type 0
  MayMerge p (some b) = Tested b
  MayMerge p none = Fresh p

  handle_oldest-calls :
      (a : ℕ) (t : Tracked) (l : List (ℕ × Tracked)) (p : PrPool) (calls : List MergeCall)
      (r : Round)
      → handle_oldest w ic mc (a, t) l p calls ≡ some r
      → (r.calls ≡ calls) ⊎ (check_base_sha w ic mc (get_branch t.raw.base.ref) t ≡ some true)
  unfolding handle_oldest unchanged start_batch
  handle_oldest-calls a t l p calls r h = ground (arith, h)

  -- A round that asks the git server for a merge had a reason to: with a batch, the batch is not being
  -- handled and its job has completed; without one, the oldest mergeable pull request was tested on the
  -- latest commit of its base branch.
  pub merge_one_pool-MayMerge :
      (p : PrPool) (calls : List MergeCall) (r : Round)
      → merge_one_pool w ic mc p calls ≡ some r
      → r.calls ≢ calls
      → MayMerge p p.current_batch
  unfolding merge_one_pool unchanged
  merge_one_pool-MayMerge p calls r h n = by_batch p.current_batch refl
    where
      by_list :
          p.current_batch ≡ none
          → (l : List (ℕ × Tracked)) → sort_by_id p.merge_pool.mergeable_prs p.store ≡ l
          → Fresh p
      by_list e [] k = absurd (n (ground (arith, h, e, k)))
      by_list e ((a, t) ∷ l) k =
          let c : (r.calls ≡ calls)
              ⊎ (check_base_sha w ic mc (get_branch t.raw.base.ref) t ≡ some true) =
            handle_oldest-calls a t ((a, t) ∷ l) p calls r (ground (arith, h, e, k)) in
          elim c [
            | inl same ↦ absurd (n same)
            | inr c ↦ record { address = a; oldest = t; others = l; first = k; tested = c }
          ]

      by_batch : (o : Option Batch) → p.current_batch ≡ o → MayMerge p o
      by_batch none e = by_list e (sort_by_id p.merge_pool.mergeable_prs p.store) refl
      by_batch (some b) e = record {
        idle = ground (arith, h, n, e);
        done = ground (arith, h, n, e, handle_batch-calls b p calls r);
      }

  -- A round that finds the job of a batch that is not empty failed, and does not panic, leaves a
  -- smaller batch, or none.
  pub failed_shrinks :
      (b : Batch) (p : PrPool) (calls : List MergeCall) (r : Round)
      → handle_batch w ic mc b p calls ≡ some r
      → w.job_state b.job ≡ some failed
      → 0 < length b.prs
      → batch_size r.pool.current_batch < length b.prs
  unfolding handle_batch set_batch
  failed_shrinks b p calls r h f k =
      ground (arith, h, start_batch-calls (drop_last b.prs) p calls r, length-drop_last b.prs, f, k)
