-- ===== src/Cron/Stale.antt =====
-- pkg/cron/cron.go: what is left of the jobs when those that are no periodic jobs are removed.
use cicd_operator.Base.{
  if◌then◌else◌, Bool-cases, Option-cases, ◌==◌, nat_eq, ==_iff, filterb, In-filterb_iff, Str,
  str_eq, sort_strings, Map, get, get-del, ◌≡◌, refl, sym, ap, ◌∙◌, inl, inr, true, not, none, some,
  List, [], ◌∷◌, arith,
}
use mathlib.Core.Path.{subst}
use cicd_operator.Api.{Periodic}
use cicd_operator.Base.Text.{insert_str, str_ltb}
use cicd_operator.Structs.Graph.{mem_str}
use cicd_operator.Structs.Graph.Edges.{mem_str→In, In→mem_str}
use cicd_operator.Cron.{
  Agent, CronJob, Cron, cron_keys, periodic_names, remove_job, remove_jobs, stale,
}

mem-insert_str : (k s : Str) (l : List Str) → mem_str k (insert_str s l) ≡ mem_str k (s ∷ l)
unfolding insert_str
mem-insert_str k s [] = refl
mem-insert_str k s (t ∷ l) = elim (Bool-cases (str_ltb t s)) [
  | inl a ↦ ground (arith, a, mem-insert_str k s l)
  | inr b ↦ ground (arith, b)
]

mem-sort_strings : (k : Str) (l : List Str) → mem_str k (sort_strings l) ≡ mem_str k l
unfolding sort_strings
mem-sort_strings k [] = refl
mem-sort_strings k (s ∷ l) =
    ground (arith, mem-insert_str k s (sort_strings l), mem-sort_strings k l)

cron_keys_lem :
    (k : Str) (m : Map Str CronJob) (j : CronJob)
    → get k m ≡ some j
    → mem_str k (cron_keys m) ≡ true
unfolding cron_keys get
cron_keys_lem k [] j q = ground (arith, q)
cron_keys_lem k ((n, i) ∷ m) j q = elim (Bool-cases (n == k)) [
  | inl t ↦ ground (arith, t)
  | inr f ↦
      let later : get k m ≡ some j = ground (arith, f, q) in
      ground (arith, f, cron_keys_lem k m j later)
]

module _ {State : Type 0} (agent : Agent State) where
  pub get-remove_job :
      (name k : Str) (c : Cron State)
      → get k (remove_job agent name c).1.jobs ≡ (if name == k then none else get k c.jobs)
  unfolding remove_job
  get-remove_job name k c = elim (Option-cases (get name c.jobs)) [
    | inr (j, q) ↦ ground (arith, q, get-del name k c.jobs)
    | inl n ↦ elim (Bool-cases (name == k)) [
      | inl t ↦
          let same : name ≡ k = (==_iff name k).0 t in
          let gone : get k c.jobs ≡ none = subst (λ z. get z c.jobs ≡ none) same n in
          ground (arith, n, t, gone)
      | inr f ↦ ground (arith, n, f)
    ]
  ]

  get-remove_jobs :
      (names : List Str) (k : Str) (c : Cron State)
      → get k (remove_jobs agent names c).1.jobs ≡ (if mem_str k names then none else get k c.jobs)
  unfolding remove_jobs
  get-remove_jobs [] k c = refl
  get-remove_jobs (name ∷ names) k c =
      ground (arith, get-remove_jobs names k (remove_job agent name c).1, get-remove_job name k c)

  stale_lem :
      (l : List Periodic) (k : Str) (jobs : Map Str CronJob) (j : CronJob)
      → get k jobs ≡ some j
      → mem_str k (stale agent l jobs) ≡ not (mem_str k (periodic_names l))
  unfolding stale
  stale_lem l k jobs j q =
      let here =
        In-filterb_iff (λ (x : Str). not (mem_str x (periodic_names l))) k (cron_keys jobs) in
      let mem =
        mem-sort_strings k (filterb (λ x. not (mem_str x (periodic_names l))) (cron_keys jobs)) in
      elim (Bool-cases (mem_str k (periodic_names l))) [
        | inl t ↦
            elim (Bool-cases
              (mem_str k (filterb (λ x. not (mem_str x (periodic_names l))) (cron_keys jobs)))) [
                | inl x ↦ let gone = (here.0 (mem_str→In k _ x)).1 in ground (arith, t, gone)
                | inr y ↦ mem ∙ (y ∙ ap not (sym t))
              ]
        | inr f ↦
            mem
            ∙ (In→mem_str k _
                  (here.1 (mem_str→In k (cron_keys jobs) (cron_keys_lem k jobs j q), ap not f))
                ∙ ap not (sym f))
      ]

  pub stale_gone :
      (l : List Periodic) (k : Str) (c : Cron State)
      → get k (remove_jobs agent (stale agent l c.jobs) c).1.jobs
        ≡ (if mem_str k (periodic_names l) then get k c.jobs else none)
  stale_gone l k c = elim (Option-cases (get k c.jobs)) [
    | inl n ↦ ground (arith, n, get-remove_jobs (stale agent l c.jobs) k c)
    | inr (j, q) ↦
        ground (arith, q, stale_lem l k c.jobs j q, get-remove_jobs (stale agent l c.jobs) k c)
  ]
