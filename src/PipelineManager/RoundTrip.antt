-- ===== src/PipelineManager/RoundTrip.antt =====
-- pkg/pipelinemanager/pipelinemanager.go: the base commit of a description, written and read.
use cicd_operator.Base.{
  nat_eq, length, take, replicate, length-append, length-take, length-replicate, All, Str, str_eq,
  has_prefix, ℕ, zero, suc, ◌-◌, ◌≤◌, ◌<◌, ◌≡◌, refl, ◌≢◌, true, false, none, some, [], ◌∷◌, ◌++◌,
  arith,
}
use mathlib.Core.Path.{subst}
use native.Mathlib.Decide.{dec_le}
use mathlib.Core.List.{append_assoc}
use cicd_operator.PipelineManager.Description.{
  base_sha_key, ellipse, max_length, with_base, append_base_sha_to_description, is_hex, hex_run,
  match_here, find_match, parse_base_from_description,
}

-- Five to forty hexadecimal digits.
pub record IsSha (sha : Str) : Type 0 where
  pub digits : All (λ c. is_hex c ≡ true) sha
  pub long : 5 ≤ length sha
  pub short : length sha ≤ 40

-- The text has no `B`, so no key begins in it; none of the three job messages has one.
abbrev pub NoB : Str → Type 0
NoB = All (λ c. c ≢ b'B')

hex_run-All : (n : ℕ) (s : Str) → All (λ c. is_hex c ≡ true) s → length s ≤ n → hex_run n s ≡ s
unfolding hex_run
hex_run-All zero [] h k = refl
hex_run-All zero (c ∷ s) h k = absurd (omega arith)
hex_run-All (suc n) [] h k = refl
hex_run-All (suc n) (c ∷ s) h k = rw (h.0, hex_run-All n s h.1 (omega arith))

match_base : (sha : Str) → IsSha sha → match_here (base_sha_key ++ sha) ≡ some sha
unfolding match_here has_prefix
match_base sha v = rw (hex_run-All 40 sha v.digits v.short) (ground (arith, v.long))

find_base : (sha : Str) → IsSha sha → find_match (base_sha_key ++ sha) ≡ some sha
unfolding find_match
find_base sha v = rw (match_base sha v, find_match)

no_key : (c : ℕ) (s : Str) → c ≢ b'B' → has_prefix (c ∷ s) base_sha_key ≡ false
unfolding has_prefix
no_key c s h = ground (arith, h)

no_match : (c : ℕ) (s : Str) → c ≢ b'B' → match_here (c ∷ s) ≡ none
unfolding match_here
no_match c s h = rw (no_key c s h)

-- The search passes over text without a `B`.
find_behind : (s t : Str) (r : Str) → NoB s → find_match t ≡ some r → find_match (s ++ t) ≡ some r
unfolding find_match
find_behind [] t r h e = e
find_behind (c ∷ s) t r h e = rw (no_match c (s ++ t) h.0, find_match) (find_behind s t r h.1 e)

NoB-append : (s t : Str) → NoB s → NoB t → NoB (s ++ t)
NoB-append [] t h k = k
NoB-append (c ∷ s) t h k = (h.0, NoB-append s t h.1 k)

NoB-take : (n : ℕ) (s : Str) → NoB s → NoB (take n s)
NoB-take zero s h = tt
NoB-take (suc n) [] h = tt
NoB-take (suc n) (c ∷ s) h = (h.0, NoB-take n s h.1)

NoB-spaces : (n : ℕ) → NoB (replicate n b' ')
NoB-spaces zero = tt
NoB-spaces (suc n) = (omega arith, NoB-spaces n)

reads_back :
    (s sha : Str)
    → IsSha sha
    → NoB s
    → parse_base_from_description (s ++ (base_sha_key ++ sha)) ≡ sha
unfolding parse_base_from_description
reads_back s sha v n =
    rw (find_behind s (base_sha_key ++ sha) sha n (find_base sha v), parse_base_from_description)

-- The description written for a base commit.
abbrev Written : Str → Str → Type 0
Written desc sha =
    (text : Str) × (append_base_sha_to_description desc sha ≡ some text)
    × (parse_base_from_description text ≡ sha)
    × (length text ≡ 140)

abbrev fill : Str → Str → ℕ
fill desc sha = max_length - length (base_sha_key ++ sha) - length desc

abbrev room : Str → ℕ
room sha = max_length - length (ellipse ++ (base_sha_key ++ sha))

-- A description that fits is filled up with spaces.
whole-Written :
    (desc : Str) (c : ℕ) (sha : Str)
    → IsSha (c ∷ sha)
    → NoB desc
    → length desc ≤ room (c ∷ sha)
    → Written desc (c ∷ sha)
unfolding append_base_sha_to_description with_base
whole-Written desc c sha v n h =
    let spaces : Str = replicate (fill desc (c ∷ sha)) b' ' in
    let base : Str = base_sha_key ++ c ∷ sha in
    (
      desc ++ (spaces ++ base),
      ground (arith, h, v.short),
      subst (λ t. parse_base_from_description t ≡ c ∷ sha) (append_assoc desc spaces base)
          (reads_back (desc ++ spaces) (c ∷ sha) v
            (NoB-append desc spaces n (NoB-spaces (fill desc (c ∷ sha))))),
      omega (
        arith,
        length-append desc (spaces ++ base),
        length-append spaces base,
        length-replicate {A = ℕ} (fill desc (c ∷ sha)) b' ',
      ),
    )

-- A longer one is cut.
cut-Written :
    (desc : Str) (c : ℕ) (sha : Str)
    → IsSha (c ∷ sha)
    → NoB desc
    → room (c ∷ sha) < length desc
    → Written desc (c ∷ sha)
unfolding append_base_sha_to_description with_base
cut-Written desc c sha v n h =
    let start : Str = take (room (c ∷ sha)) desc in
    let base : Str = base_sha_key ++ c ∷ sha in
    (
      start ++ (ellipse ++ base),
      ground (arith, h, v.short),
      subst (λ t. parse_base_from_description t ≡ c ∷ sha) (append_assoc start ellipse base)
          (reads_back (start ++ ellipse) (c ∷ sha) v
            (NoB-append start ellipse (NoB-take (room (c ∷ sha)) desc n) (omega arith))),
      omega (arith, length-append start (ellipse ++ base), length-take (room (c ∷ sha)) desc),
    )

-- For a commit of five to forty hexadecimal digits and a message without the letter B, the description
-- is written, has 140 characters, and the merger reads that commit from it, also where the message had
-- to be cut.
pub parse-append :
    (desc sha : Str)
    → IsSha sha
    → NoB desc
    → (text : Str) × (append_base_sha_to_description desc sha ≡ some text)
      × (parse_base_from_description text ≡ sha)
      × (length text ≡ 140)
parse-append desc [] v n = absurd (omega (arith, v.long))
parse-append desc (c ∷ sha) v n = elim (dec_le (length desc) (room (c ∷ sha))) [
  | yes h ↦ whole-Written desc c sha v n h
  | no h ↦ cut-Written desc c sha v n (omega arith)
]
