-- ===== src/PipelineManager/Times.antt =====
-- pkg/pipelinemanager/pipelinemanager.go: what holds of each status that ReflectStatus makes.
use cicd_operator.Base.{
  Bool-cases, Option-cases, nat_eq, length, drop, length-append, Str, str_eq, ℕ, suc, ◌≤◌, ◌≡◌,
  refl, ap, ◌∙◌, ◌≢◌, ◌⊎◌, inl, inr, Bool, true, Option, none, some, List, [], ◌∷◌, ◌++◌, arith,
}
use cicd_operator.Api.{JobStatus, RunStatus, Job, is_set, state_eq}
use cicd_operator.Git.{status_eq}
use cicd_operator.PipelineManager.Reflect.{PipelineRun, reflect, is_ended}
use cicd_operator.PipelineManager.InitState.{init_state, init_state_flags}
use cicd_operator.PipelineManager.Reflect.{
  set_times, run_status, reflect_jobs, reflect_job_status, lost_run, job_names,
}

-- A run whose condition is found has a first condition.
abbrev pub IsCoherent : Option PipelineRun → Type 0
IsCoherent run =
    (pr : PipelineRun)
    → run ≡ some pr
    → (text : Str) → pr.condition ≡ some text
    → pr.conditions ≢ []

abbrev IsTimed : JobStatus → Type 0
IsTimed s =
    is_ended s.state ≡ true → (is_set s.start_time ≡ true) × (is_set s.completion_time ≡ true)

set_times-IsTimed : (now : ℕ) (s : JobStatus) → IsTimed (set_times now s)
unfolding set_times is_ended is_set
set_times-IsTimed now s h = elim (Bool-cases (is_ended s.state)) [
  | inl t ↦ elim (Option-cases s.start_time) [
    | inl a ↦ elim (Option-cases s.completion_time) [
      | inl b ↦ ground (arith, t, a, b)
      | inr (_, b) ↦ ground (arith, t, a, b)
    ]
    | inr (_, a) ↦ elim (Option-cases s.completion_time) [
      | inl b ↦ ground (arith, t, a, b)
      | inr (_, b) ↦ ground (arith, t, a, b)
    ]
  ]
  | inr f ↦ ground (arith, f, h)
]

pub set_times_jobs : (now : ℕ) (s : JobStatus) → (set_times now s).jobs ≡ s.jobs
unfolding set_times
set_times_jobs now s = ground arith

List-cases : {A : Type 0} (l : List A) → (l ≡ []) ⊎ ((a : A) × (t : List A) × (l ≡ a ∷ t))
List-cases [] = inl refl
List-cases (a ∷ t) = inr (a, t, refl)

run_status_total :
    (pr : PipelineRun) (s : JobStatus)
    → ((text : Str) → pr.condition ≡ some text → pr.conditions ≢ [])
    → (r : JobStatus) × (run_status pr s ≡ some r)
unfolding run_status
run_status_total pr s h = elim (Option-cases (run_status pr s)) [
  | inl n ↦ elim (Option-cases pr.condition) [
    | inl e ↦ ground (arith, n, e)
    | inr (text, e) ↦ elim (List-cases pr.conditions) [
      | inl q ↦ absurd (h text e q)
      | inr (c, l, q) ↦ ground (arith, n, e, q)
    ]
  ]
  | inr r ↦ r
]

length-job_names : (jobs : List Job) → length (job_names jobs) ≡ length jobs
length-job_names [] = refl
length-job_names (j ∷ jobs) = ap suc (length-job_names jobs)

at_least : (xs ys : List Bool) (n : ℕ) → length xs ≡ n → n ≤ length (xs ++ ys)
at_least xs ys n e = omega (arith, e, length-append xs ys)

module _ (notify : RunStatus → Option Str) (pr : PipelineRun) where
  reflect_jobs_total :
      (names : List Str) (statuses : List RunStatus)
      → length statuses ≡ length names
      → (flags : List Bool) × (rest : List RunStatus) × (reflect_jobs notify pr names statuses
          ≡ some (flags, rest))
        × (length flags ≡ length names)
        × (length rest ≡ length names)
  unfolding reflect_jobs
  reflect_jobs_total [] statuses e = ([], statuses, refl, refl, e)
  reflect_jobs_total (n ∷ names) [] e = ground (arith, e)
  reflect_jobs_total (n ∷ names) (s ∷ statuses) e =
      let (flags, rest, q, f, g) = reflect_jobs_total names statuses (omega (arith, e)) in
      (
        (reflect_job_status notify pr n s).0 ∷ flags,
        (reflect_job_status notify pr n s).1 ∷ rest,
        ground (arith, q),
        ap suc f,
        ap suc g,
      )

  reflect_run :
      (now : ℕ) (jobs : List Job) (s : JobStatus)
      → ((text : Str) → pr.condition ≡ some text → pr.conditions ≢ [])
      → (r : JobStatus) × (flags : List Bool) × (reflect notify now (some pr) jobs s
          ≡ some (r, flags))
        × (length r.jobs ≡ length jobs)
        × (length jobs ≤ length flags)
        × IsTimed r
  unfolding reflect
  reflect_run now jobs s h =
      let names = job_names jobs in
      let (state, e) = run_status_total pr s h in
      let (n, _, _) = init_state_flags names s.jobs in
      let (flags, rest, q, f, g) = reflect_jobs_total names (init_state names s.jobs).1 n in
      let r = set_times now (record state { jobs = rest }) in
      (
        r,
        flags ++ drop (length jobs) (init_state names s.jobs).0,
        ground (arith, e, q),
        ap length (set_times_jobs now (record state { jobs = rest })) ∙ (g ∙ length-job_names jobs),
        at_least flags (drop (length jobs) (init_state names s.jobs).0) (length jobs)
            (f ∙ length-job_names jobs),
        set_times-IsTimed now (record state { jobs = rest }),
      )

reflect_lost :
    (notify : RunStatus → Option Str) (now : ℕ) (jobs : List Job) (s : JobStatus)
    → (r : JobStatus) × (flags : List Bool) × (reflect notify now none jobs s ≡ some (r, flags))
      × (length r.jobs ≡ length jobs)
      × (length jobs ≤ length flags)
      × IsTimed r
unfolding reflect
reflect_lost notify now jobs s =
    let names = job_names jobs in
    let (n, twice, _) = init_state_flags names s.jobs in
    let before = record (lost_run s) { jobs = (init_state names s.jobs).1 } in
    (
      set_times now before,
      (init_state names s.jobs).0,
      refl,
      ap length (set_times_jobs now before) ∙ (n ∙ length-job_names jobs),
      omega (arith, twice, length-job_names jobs),
      set_times-IsTimed now before,
    )

-- ReflectStatus makes a status of each job, also where the PipelineRun is gone, if a run whose condition is found has a
-- first condition. There are then as many statuses as jobs and a flag for each, and a status that is completed or failed has
-- both its times.
pub reflect_total :
    (notify : RunStatus → Option Str) (now : ℕ) (run : Option PipelineRun) (jobs : List Job)
    (s : JobStatus)
    → IsCoherent run
    → (r : JobStatus) × (flags : List Bool) × (reflect notify now run jobs s ≡ some (r, flags))
      × (length r.jobs ≡ length jobs)
      × (length jobs ≤ length flags)
      × (is_ended r.state ≡ true → (is_set r.start_time ≡ true) × (is_set r.completion_time ≡ true))
reflect_total notify now none jobs s h = reflect_lost notify now jobs s
reflect_total notify now (some pr) jobs s h =
    reflect_run notify pr now jobs s (λ text e. h pr refl text e)
