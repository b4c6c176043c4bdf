-- ===== src/Pool/Keys.antt =====
-- pkg/scheduler/pool/pool.go: the id of a node names one job, when no namespace holds an underscore.
use cicd_operator.Base.{
  Eq, ◌==◌, nat_eq, All, Str, str_beq_iff, str_eq, ◌≡◌, refl, ◌≢◌, ◌↔◌, Bool, true, ◌&&◌, [], ◌∷◌,
  ◌++◌, arith,
}
use cicd_operator.Api.{IntegrationJob}
use cicd_operator.Pool.{equals}

-- The name and the namespace, which `Equals` compares.
pub record JobKey : Type 0 where
  pub name : Str
  pub namespace : Str

abbrev pub key_of : IntegrationJob → JobKey
key_of j = record { name = j.name; namespace = j.namespace }

unfoldable pub key_beq : JobKey → JobKey → Bool
key_beq a b = a.name == b.name && a.namespace == b.namespace

pub key_beq_iff : (a b : JobKey) → (key_beq a b ≡ true) ↔ (a ≡ b)
unfolding key_beq
key_beq_iff a b = ground (arith, str_beq_iff a.name b.name, str_beq_iff a.namespace b.namespace)

instance abbrev pub key_eq : Eq JobKey
key_eq = record { beq = key_beq; beq_iff = key_beq_iff }

-- `Equals` compares keys.
pub equals-key : (a b : IntegrationJob) → equals a b ≡ (key_of a == key_of b)
unfolding equals key_beq
equals-key a b = refl

abbrev pub NoUnderscore : Str → Type 0
NoUnderscore = All (λ c. c ≢ b'_')

abbrev pub id_of : JobKey → Str
id_of k = k.namespace ++ b'_' ∷ k.name

split_once :
    (s t x y : Str)
    → NoUnderscore s
    → NoUnderscore t
    → s ++ b'_' ∷ x ≡ t ++ b'_' ∷ y
    → (s ≡ t) × (x ≡ y)
split_once [] [] x y hs ht e = ground arith
split_once [] (c ∷ t) x y hs ht e = absurd (ht.0 (ground arith))
split_once (c ∷ s) [] x y hs ht e = absurd (hs.0 (ground arith))
split_once (c ∷ s) (d ∷ t) x y hs ht e = ground (arith, split_once s t x y hs.1 ht.1)

-- Two jobs with one node id are one job, if their namespaces are valid.
pub id_of-injective :
    (a b : JobKey) → NoUnderscore a.namespace → NoUnderscore b.namespace → id_of a ≡ id_of b → a ≡ b
id_of-injective a b ha hb e =
    ground (arith, split_once a.namespace b.namespace a.name b.name ha hb e)
