-- ===== src/Base/Text.antt =====
-- A Go string is the list of its bytes.
use Prim.Native.Nat.{ℕ, zero, suc, ◌-◌}
use Prim.Native.Char.{code}
use Prim.Native.String.{String}
use mathlib.Core.Path.{◌≡◌}
use mathlib.Core.Logic.{◌↔◌}
use mathlib.Core.Bool.{Bool, true, false, ◌&&◌, ◌||◌}
use mathlib.Core.List.{List, [], ◌∷◌, ◌++◌}
use mathlib.Core.Option.{Option, none, some}
use native.Mathlib.Omega.{arith}
use cicd_operator.Base.Tests.{ltb, nat_beq, if◌then◌else◌, Eq}
use cicd_operator.Base.Lists.{length, take, drop}

abbrev pub Str : Type 0
Str = List ℕ

-- The bytes of an ASCII literal.
abbrev pub str : String → Str
str String.[] = []
str (String.◌∷◌ c s) = code c ∷ str s

unfoldable pub str_beq : Str → Str → Bool
str_beq [] [] = true
str_beq [] (b ∷ t) = false
str_beq (a ∷ s) [] = false
str_beq (a ∷ s) (b ∷ t) = nat_beq a b && str_beq s t

pub str_beq_iff : (s t : Str) → (str_beq s t ≡ true) ↔ (s ≡ t)
unfolding str_beq
str_beq_iff [] [] = ground arith
str_beq_iff [] (b ∷ t) = ground arith
str_beq_iff (a ∷ s) [] = ground arith
str_beq_iff (a ∷ s) (b ∷ t) = ground (arith, str_beq_iff s t)

instance abbrev pub str_eq : Eq Str
str_eq = record { beq = str_beq; beq_iff = str_beq_iff }

-- strings.HasPrefix
unfoldable pub has_prefix : Str → Str → Bool
has_prefix s [] = true
has_prefix [] (b ∷ t) = false
has_prefix (a ∷ s) (b ∷ t) = nat_beq a b && has_prefix s t

-- strings.TrimPrefix
unfoldable pub trim_prefix : Str → Str → Str
unfolding has_prefix
trim_prefix s p = if has_prefix s p then drop (length p) s else s

-- strings.Contains
unfoldable pub contains_text : Str → Str → Bool
unfolding has_prefix
contains_text [] p = has_prefix [] p
contains_text (c ∷ s) p = has_prefix (c ∷ s) p || contains_text s p

-- strings.Replace(s, p, "", -1): the first argument counts the bytes still to drop.
unfoldable pub strip_from : ℕ → Str → Str → Str
unfolding has_prefix
strip_from n p [] = []
strip_from (suc n) p (c ∷ s) = strip_from n p s
strip_from zero p (c ∷ s) =
    let hit = has_prefix (c ∷ s) p in
    let rest = strip_from (if hit then length p - 1 else 0) p s in if hit then rest else c ∷ rest

unfoldable pub strip_all : Str → Str → Str
unfolding strip_from
strip_all s p = strip_from 0 p s

-- Go's `<` on strings: bytewise.
unfoldable pub str_ltb : Str → Str → Bool
str_ltb s [] = false
str_ltb [] (b ∷ t) = true
str_ltb (a ∷ s) (b ∷ t) = if nat_beq a b then str_ltb s t else ltb a b

-- sort.Strings: strings that compare equal are the same, so the result does not depend on the method.
unfoldable pub insert_str : Str → List Str → List Str
insert_str s [] = s ∷ []
insert_str s (t ∷ l) = if str_ltb t s then t ∷ insert_str s l else s ∷ t ∷ l

unfoldable pub sort_strings : List Str → List Str
unfolding insert_str str_ltb
sort_strings [] = []
sort_strings (s ∷ l) = insert_str s (sort_strings l)

-- strings.Join
unfoldable pub join : Str → List Str → Str
join sep [] = []
join sep (s ∷ []) = s
join sep (s ∷ t ∷ l) = s ++ (sep ++ join sep (t ∷ l))

-- s[:n], which panics past the end.
unfoldable pub slice_to : ℕ → Str → Option Str
slice_to n s = if ltb (length s) n then none else some (take n s)

-- strings.Split at one byte.
unfoldable pub split_on : ℕ → Str → List Str
split_on sep [] = [] ∷ []
split_on sep (c ∷ s) =
    let rest = split_on sep s in
    if nat_beq c sep then [] ∷ rest else (elim rest [ [] ↦ (c ∷ []) ∷ [] | w ∷ ws ↦ (c ∷ w) ∷ ws ])
