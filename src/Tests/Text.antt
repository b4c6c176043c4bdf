-- ===== src/Tests/Text.antt =====
-- pkg/pipelinemanager at a short commit.
use cicd_operator.Base.{nat_eq, length, Str, str, str_eq, ◌≡◌, refl, some, arith}
use cicd_operator.PipelineManager.Description.{
  append_base_sha_to_description, parse_base_from_description, is_hex,
}
use cicd_operator.PipelineManager.RoundTrip.{IsSha, NoB, parse-append}

abcde-IsSha : IsSha (str "abcde")
unfolding is_hex
abcde-IsSha = record {
  digits = (refl, (refl, (refl, (refl, (refl, tt)))));
  long = omega arith;
  short = omega arith;
}

job-NoB : NoB (str "Job")
job-NoB = ((λ e. omega arith), ((λ e. omega arith), ((λ e. omega arith), tt)))

parse-append_example :
    (text : Str) × (append_base_sha_to_description (str "Job") (str "abcde") ≡ some text)
    × (parse_base_from_description text ≡ str "abcde")
    × (length text ≡ 140)
parse-append_example = parse-append (str "Job") (str "abcde") abcde-IsSha job-NoB
