-- ===== src/PipelineManager/Description.antt =====
-- pkg/pipelinemanager/pipelinemanager.go: the base commit in a commit status's description. The pattern
-- BaseSHA:([0-9a-f]{5,40}) is matched by hand: leftmost, and as long as it goes. A result `none` is a
-- panic (a slice bound below zero).
use cicd_operator.Base.{
  ltb, leb, if◌then◌else◌, nat_eq, length, take, drop, replicate, Str, str, str_eq, has_prefix, ℕ,
  zero, suc, ◌-◌, Bool, ◌&&◌, ◌||◌, Option, none, some, [], ◌∷◌, ◌++◌,
}

abbrev pub base_sha_key : Str
base_sha_key = str "BaseSHA:"

abbrev pub ellipse : Str
ellipse = str "... "

abbrev pub max_length : ℕ
max_length = 140

-- `job_message_*`
abbrev pub job_message_pending : Str
job_message_pending = str "Job is running"

abbrev pub job_message_successful : Str
job_message_successful = str "Job succeeded"

abbrev pub job_message_failure : Str
job_message_failure = str "Job failed"

-- The description with a base commit that is not empty.
unfoldable pub with_base : Str → Str → Option Str
with_base desc sha =
    let base = base_sha_key ++ sha in
    let ellipse_base = ellipse ++ base in
    let max_desc_len = max_length - length ellipse_base in
    if ltb (max_length - length ellipse_base) (length desc) || ltb max_length (length ellipse_base)
    then (if ltb max_length (length ellipse_base)
        then none
        else some (take max_desc_len desc ++ ellipse_base))
    else some (desc ++ (replicate (max_length - length base - length desc) b' ' ++ base))

unfoldable pub append_base_sha_to_description : Str → Str → Option Str
unfolding with_base
append_base_sha_to_description desc [] =
    some (if ltb max_length (length desc) then take max_length desc else desc)
append_base_sha_to_description desc (c ∷ sha) = with_base desc (c ∷ sha)

unfoldable pub is_hex : ℕ → Bool
is_hex c = (leb b'0' c && leb c b'9') || (leb b'a' c && leb c b'f')

-- The longest run of hexadecimal digits at the start, of at most so many.
unfoldable pub hex_run : ℕ → Str → Str
unfolding is_hex
hex_run zero s = []
hex_run (suc n) [] = []
hex_run (suc n) (c ∷ s) = let rest = hex_run n s in if is_hex c then c ∷ rest else []

-- The group of a match at the start of the text.
unfoldable pub match_here : Str → Option Str
unfolding hex_run has_prefix
match_here s =
    let run = hex_run 40 (drop (length base_sha_key) s) in
    if has_prefix s base_sha_key && leb 5 (length run) then some run else none

unfoldable pub find_match : Str → Option Str
unfolding match_here
find_match [] = none
find_match (c ∷ s) =
    let rest = find_match s in elim (match_here (c ∷ s)) [ some run ↦ some run | none ↦ rest ]

unfoldable pub parse_base_from_description : Str → Str
unfolding find_match
parse_base_from_description desc = elim (find_match desc) [ none ↦ [] | some run ↦ run ]
