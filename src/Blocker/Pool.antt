-- ===== src/Blocker/Pool.antt =====
-- pkg/blocker/blocker.go: the pool of the pull requests of one repository. The objects that the maps and the batch
-- point to live in a store under addresses, so that a change is seen through every pointer.
use cicd_operator.Base.{
  Eq, ◌==◌, nat_eq, Str, str_eq, Map, get, put, del, ℕ, ◌≡◌, ◌↔◌, Bool, true, false, ◌||◌, Option,
  none, some, List, [], ◌∷◌, arith,
}
use cicd_operator.Git.{PullRequest, CommitStatus}

-- The two values of `BlockerStatus`.
pub data BlockerStatus : Type 0 where
  waiting mergeable : BlockerStatus

unfoldable pub blocker_status_beq : BlockerStatus → BlockerStatus → Bool
blocker_status_beq waiting waiting = true
blocker_status_beq mergeable mergeable = true
blocker_status_beq _ _ = false

pub blocker_status_beq_iff : (a b : BlockerStatus) → (blocker_status_beq a b ≡ true) ↔ (a ≡ b)
unfolding blocker_status_beq
blocker_status_beq_iff a b = ground arith

instance abbrev pub blocker_status_eq : Eq BlockerStatus
blocker_status_eq = record { beq = blocker_status_beq; beq_iff = blocker_status_beq_iff }

-- `PullRequest` of the blocker: the raw pull request and what was last reported of it.
pub record Tracked : Type 0 where
  pub raw : PullRequest
  pub blocker_status : BlockerStatus
  pub blocker_description : Str
  pub latest_sha : Str
  pub dirty : Bool
  pub statuses : Map Str CommitStatus

pub record MergePool : Type 0 where
  pub waiting_prs : Map ℕ ℕ
  pub mergeable_prs : Map ℕ ℕ

-- The name of a Kubernetes object with its namespace.
pub record NamespacedName : Type 0 where
  pub namespace : Str
  pub name : Str

-- `prs` are addresses.
pub record Batch : Type 0 where
  pub prs : List ℕ
  pub job : NamespacedName
  pub processing : Bool

pub record PrPool : Type 0 where
  pub config_name : NamespacedName
  pub store : Map ℕ Tracked
  pub next_address : ℕ
  pub pull_requests : Map ℕ ℕ
  pub merge_pool : MergePool
  pub current_batch : Option Batch

unfoldable pub new_pr_pool : NamespacedName → PrPool
new_pr_pool n = record {
  config_name = n;
  store = [];
  next_address = 0;
  pull_requests = [];
  merge_pool = record { waiting_prs = []; mergeable_prs = [] };
  current_batch = none;
}

-- `m[status]`
unfoldable pub slot : BlockerStatus → MergePool → Map ℕ ℕ
slot waiting m = m.waiting_prs
slot mergeable m = m.mergeable_prs

unfoldable pub set_slot : BlockerStatus → Map ℕ ℕ → MergePool → MergePool
set_slot waiting prs m = record m { waiting_prs = prs }
set_slot mergeable prs m = record m { mergeable_prs = prs }

unfoldable pub search_pool : ℕ → MergePool → Option ℕ
unfolding get
search_pool id m = elim (get id m.waiting_prs) [ some a ↦ some a | none ↦ get id m.mergeable_prs ]

unfoldable pub pool_put : BlockerStatus → ℕ → ℕ → MergePool → MergePool
unfolding slot set_slot put
pool_put s id address m = set_slot s (put id address (slot s m)) m

unfoldable pub pool_remove : BlockerStatus → ℕ → MergePool → MergePool
unfolding slot set_slot del
pool_remove s id m = set_slot s (del id (slot s m)) m

-- `MergePool.Delete`
unfoldable pub pool_delete : ℕ → MergePool → MergePool
unfolding del
pool_delete id m = record {
  waiting_prs = del id m.waiting_prs;
  mergeable_prs = del id m.mergeable_prs;
}

-- A change of the object at an address.
unfoldable pub modify : ℕ → (Tracked → Tracked) → Map ℕ Tracked → Map ℕ Tracked
unfolding get put
modify a f store = elim (get a store) [ none ↦ store | some t ↦ put a (f t) store ]

-- `Batch.Contains`, through the pointers.
unfoldable pub batch_contains : ℕ → List ℕ → Map ℕ Tracked → Bool
unfolding get
batch_contains id [] store = false
batch_contains id (a ∷ prs) store =
    let rest = batch_contains id prs store in
    elim (get a store) [ none ↦ rest | some t ↦ t.raw.id == id || rest ]

-- `CurrentBatch != nil && CurrentBatch.Contains(id)`
unfoldable pub in_batch : ℕ → PrPool → Bool
unfolding batch_contains
in_batch id p = elim p.current_batch [ none ↦ false | some b ↦ batch_contains id b.prs p.store ]
