-- ===== src/Scheduler/Fifo.antt =====
-- pkg/scheduler/fifo.go: the order of the pending list.
use cicd_operator.Base.{
  ltb, nat_eq, Str, str_eq, str_ltb, ◌≤◌, ◌<◌, ◌≡◌, refl, Bool, true, false, ◌||◌, some, List, [],
  ◌∷◌, arith,
}
use cicd_operator.Api.{IntegrationJob}
use cicd_operator.Structs.Queue.{add, seek, position}
use cicd_operator.Pool.{node_id, equals}

unfoldable pub fifo_compare : IntegrationJob → IntegrationJob → Bool
fifo_compare a b = ltb a.creation_timestamp b.creation_timestamp || str_ltb (node_id a) (node_id b)

-- A job that was created later, but has the smaller id, comes before the older job, and
-- so does the older before it: the comparison is no order.
fifo_compare_both :
    (a b : IntegrationJob)
    → a.creation_timestamp < b.creation_timestamp
    → str_ltb (node_id b) (node_id a) ≡ true
    → (fifo_compare a b ≡ true) × (fifo_compare b a ≡ true)
unfolding fifo_compare
fifo_compare_both a b h e = ground arith

-- A job that was created later but has the smaller id is put in front of an older job at the head of
-- the pending list.
newer_first :
    (a b : IntegrationJob) (q : List IntegrationJob)
    → a.creation_timestamp < b.creation_timestamp
    → str_ltb (node_id b) (node_id a) ≡ true
    → equals b a ≡ false
    → add equals (some fifo_compare) b (a ∷ q) ≡ b ∷ a ∷ q
unfolding add position seek
newer_first a b q h e n = ground (arith, fifo_compare_both a b h e)

str_ltb_irrefl : (s : Str) → str_ltb s s ≡ false
unfolding str_ltb
str_ltb_irrefl [] = refl
str_ltb_irrefl (a ∷ s) = ground (arith, str_ltb_irrefl s)

-- A job is never put in front of a job with its id that is as old.
fifo_compare_irrefl :
    (a b : IntegrationJob)
    → node_id a ≡ node_id b
    → b.creation_timestamp ≤ a.creation_timestamp
    → fifo_compare a b ≡ false
unfolding fifo_compare
fifo_compare_irrefl a b e h = rw e (ground (arith, str_ltb_irrefl (node_id b)))
