-- ===== src/PipelineManager/HeadRefs.antt =====
-- pkg/pipelinemanager/env.go: what a script that splits CI_HEAD_SHA or CI_HEAD_REF at blanks gets.
use cicd_operator.Base.{
  if◌then◌else◌, ◌==◌, nat_eq, str_beq, filterb, All, Str, str, str_eq, split_on, Without,
  split_word, split_append, ◌≡◌, refl, sym, ap, ◌∙◌, false, not, Option, none, some, List, [], ◌∷◌,
  ◌++◌, map,
}
use mathlib.Core.List.{append_assoc, append-nil}
use cicd_operator.Tekton.{EnvVar}
use cicd_operator.Api.{Sender, RefsBase, RefsPull, JobSpec, IntegrationJob}
use cicd_operator.GitClient.{Result, ok}
use cicd_operator.PipelineManager.Envs.{
  Url, gather, sender_envs, ref_envs, job_envs, generate_default_envs,
}

-- The value of a variable.
abbrev pub value_of : Str → List EnvVar → Option Str
value_of name [] = none
value_of name (e ∷ l) = if e.name == name then some e.value else value_of name l

-- A shell's words, where blanks alone separate.
unfoldable pub words : Str → List Str
words s = filterb (λ w. not (w == [])) (split_on b' ' s)

abbrev pub IsWord : Str → Type 0
IsWord w = ((w == []) ≡ false) × Without b' ' w

All-map :
    {P Q : RefsPull → Type 0}
    → ((p : RefsPull) → P p → Q p)
    → (l : List RefsPull) → All P l
    → All Q l
All-map f [] h = tt
All-map f (p ∷ l) h = (f p h.0, All-map f l h.1)

-- The texts, each behind a blank.
blanked : (RefsPull → Str) → List RefsPull → Str
blanked f [] = []
blanked f (p ∷ l) = b' ' ∷ f p ++ blanked f l

gather-blanked :
    (f : RefsPull → Str) (acc : Str) (l : List RefsPull) → gather f acc l ≡ acc ++ blanked f l
unfolding gather blanked
gather-blanked f acc [] = sym (append-nil acc)
gather-blanked f acc (p ∷ l) =
    gather-blanked f (acc ++ b' ' ∷ f p) l ∙ append_assoc acc (b' ' ∷ f p) (blanked f l)

split-blanked :
    (f : RefsPull → Str) (w : Str) (l : List RefsPull)
    → Without b' ' w
    → All (λ p. IsWord (f p)) l
    → split_on b' ' (w ++ blanked f l) ≡ w ∷ map f l
unfolding blanked
split-blanked f w [] h hs = rw (append-nil w) (split_word b' ' w h)
split-blanked f w (p ∷ l) h hs =
    split_append b' ' w (f p ++ blanked f l) h
    ∙ ap (λ z. w ∷ z) (split-blanked f (f p) l hs.0.1 hs.1)

keep_words :
    (f : RefsPull → Str) (l : List RefsPull)
    → All (λ p. IsWord (f p)) l
    → filterb (λ w. not (w == [])) (map f l) ≡ map f l
keep_words f [] h = refl
keep_words f (p ∷ l) h = rw (h.0.0) (ap (λ z. f p ∷ z) (keep_words f l h.1))

words-gather :
    (f : RefsPull → Str) (l : List RefsPull)
    → All (λ p. IsWord (f p)) l
    → words (gather f [] l) ≡ map f l
unfolding words str_beq
words-gather f l h = rw (gather-blanked f [] l) (rw (split-blanked f [] l tt h) (keep_words f l h))

head_values :
    (spec : JobSpec) (u : Url) (s : Option Sender) (base : RefsBase) (l : List RefsPull)
    → let envs = job_envs spec u ++ (sender_envs s ++ ref_envs base (some l)) in
      (value_of (str "CI_HEAD_SHA") envs ≡ some (gather (λ p. p.sha) [] l))
      × (value_of (str "CI_HEAD_REF") envs ≡ some (gather (λ p. p.ref) [] l))
unfolding job_envs sender_envs ref_envs str_beq
head_values spec u none base l = (refl, refl)
head_values spec u (some s) base l = (refl, refl)

-- Where the link is a URL, the job of some pull requests, whose commits and refs are not empty and have no blank,
-- gets an environment; a script that splits CI_HEAD_SHA at blanks gets the commits of the pull requests in their
-- order, and CI_HEAD_REF their refs.
pub head_words :
    (parse_url : Str → Result Url) (job : IntegrationJob) (u : Url) (l : List RefsPull)
    → parse_url job.spec.refs.link ≡ ok u
    → job.spec.refs.pulls ≡ some l
    → All (λ p. IsWord p.sha × IsWord p.ref) l
    → (envs : List EnvVar) × (shas : Str) × (refs : Str) × (generate_default_envs parse_url job
        ≡ ok envs)
      × (value_of (str "CI_HEAD_SHA") envs ≡ some shas)
      × (value_of (str "CI_HEAD_REF") envs ≡ some refs)
      × (words shas ≡ map (λ p. p.sha) l)
      × (words refs ≡ map (λ p. p.ref) l)
unfolding generate_default_envs
head_words parse_url job u l e h hs =
    let refs = job.spec.refs in
    let (v, w) = head_values job.spec u refs.sender refs.base l in
    (
      job_envs job.spec u ++ (sender_envs refs.sender ++ ref_envs refs.base (some l)),
      gather (λ p. p.sha) [] l,
      gather (λ p. p.ref) [] l,
      rw e (rw h refl),
      v,
      w,
      words-gather (λ p. p.sha) l (All-map (λ p q. q.0) l hs),
      words-gather (λ p. p.ref) l (All-map (λ p q. q.1) l hs),
    )
