-- ===== src/Base/Splits.antt =====
-- strings.Split at one byte, of texts that are put together with that byte.
use Prim.Native.Nat.{ℕ}
use mathlib.Core.Path.{◌≡◌, refl, ap, ◌∙◌}
use mathlib.Core.Bool.{false}
use mathlib.Core.List.{List, [], ◌∷◌, ◌++◌}
use native.Mathlib.Omega.{arith}
use cicd_operator.Base.Tests.{nat_beq, nat_beq_iff}
use cicd_operator.Base.Lists.{All}
use cicd_operator.Base.Text.{Str, join, split_on}

-- A text without the byte.
abbrev pub Without : ℕ → Str → Type 0
Without sep = All (λ x. nat_beq x sep ≡ false)

pub split_word : (sep : ℕ) (w : Str) → Without sep w → split_on sep w ≡ w ∷ []
unfolding split_on
split_word sep [] h = refl
split_word sep (c ∷ w) h = ground (arith, h.0, split_word sep w h.1)

pub split_append :
    (sep : ℕ) (w r : Str) → Without sep w → split_on sep (w ++ (sep ∷ r)) ≡ w ∷ split_on sep r
unfolding split_on
split_append sep [] r h = ground (arith, nat_beq_iff sep sep)
split_append sep (c ∷ w) r h = ground (arith, h.0, split_append sep w r h.1)

pub split_join :
    (sep : ℕ) (w : Str) (ws : List Str)
    → Without sep w
    → All (Without sep) ws
    → split_on sep (join (sep ∷ []) (w ∷ ws)) ≡ w ∷ ws
unfolding join
split_join sep w [] h hs = split_word sep w h
split_join sep w (v ∷ ws) h hs =
    split_append sep w (join (sep ∷ []) (v ∷ ws)) h
    ∙ ap (λ z. w ∷ z) (split_join sep v ws hs.0 hs.1)
