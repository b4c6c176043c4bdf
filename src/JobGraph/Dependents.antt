-- ===== src/JobGraph/Dependents.antt =====
-- api/v1/job_types.go and pkg/chatops/plugins/trigger/handlers_trigger.go: the edges of the job graph
-- and the jobs that are kept.
use cicd_operator.Base.{
  Bool-cases, nat_eq, length, filterb, In-filterb_iff, In, Str, str_eq, get, suc, ◌≡◌, ◌↔◌, ◌⊎◌,
  inl, inr, false, Option, none, some, List, [], ◌∷◌, arith,
}
use cicd_operator.Api.{Job}
use cicd_operator.Structs.Graph.{Graph, new_graph, at, add_edge, is_cyclic, mem_str}
use cicd_operator.Structs.Graph.Edges.{
  Edge, Walk, IsCycle, IsGraph, Edge-add_edge, new_graph-IsGraph, add_edge-IsGraph, mem_str→In,
  In→mem_str,
}
use cicd_operator.Structs.Graph.Cycles.{is_cyclic_decides}
use cicd_operator.Structs.Graph.Ancestors.{get_pres-GivesAncestors}
use cicd_operator.JobGraph.{
  add_afters, add_jobs, job_graph, get_graph, dependent_jobs, filter_dependent_jobs,
}

-- A job of that name comes after the first one.
abbrev pub Precedes : List Job → Str → Str → Type 0
Precedes [] a b = ⊥
Precedes (j ∷ jobs) a b = ((b ≡ j.name) × In a j.after) ⊎ Precedes jobs a b

Edge-add_afters :
    (name : Str) (afters : List Str) (g : Graph) (a b : Str)
    → Edge (add_afters name afters g) a b ↔ (((b ≡ name) × In a afters) ⊎ Edge g a b)
unfolding add_afters
Edge-add_afters name [] g a b = ((λ h. inr h), elim [ inl h ↦ absurd h.1 | inr h ↦ h ])
Edge-add_afters name (after ∷ afters) g a b =
    let step = Edge-add_edge after name a b g in
    let rest = Edge-add_afters name afters (add_edge after name g) a b in
    (
      (λ h. elim (rest.0 h) [
        | inl x ↦ inl (x.0, inr x.1)
        | inr e ↦ elim (step.0 e) [ inl y ↦ inl (y.1, inl y.0) | inr z ↦ inr z ]
      ]),
      elim [
        | inl x ↦ elim (x.1) [
          | inl e ↦ rest.1 (inr (step.1 (inl (e, x.0))))
          | inr m ↦ rest.1 (inl (x.0, m))
        ]
        | inr z ↦ rest.1 (inr (step.1 (inr z)))
      ],
    )

Edge-add_jobs :
    (jobs : List Job) (g : Graph) (a b : Str)
    → Edge (add_jobs jobs g) a b ↔ (Precedes jobs a b ⊎ Edge g a b)
unfolding add_jobs
Edge-add_jobs [] g a b = ((λ h. inr h), elim [ inl h ↦ absurd h | inr h ↦ h ])
Edge-add_jobs (j ∷ jobs) g a b =
    let step = Edge-add_afters j.name j.after g a b in
    let rest = Edge-add_jobs jobs (add_afters j.name j.after g) a b in
    (
      (λ h. elim (rest.0 h) [
        | inl x ↦ inl (inr x)
        | inr e ↦ elim (step.0 e) [ inl y ↦ inl (inl y) | inr z ↦ inr z ]
      ]),
      elim [
        | inl x ↦ elim x [ inl y ↦ rest.1 (inr (step.1 (inl y))) | inr m ↦ rest.1 (inl m) ]
        | inr z ↦ rest.1 (inr (step.1 (inr z)))
      ],
    )

-- The graph of the jobs has an edge exactly where a job of the second name comes after the first.
pub Edge-job_graph : (jobs : List Job) (a b : Str) → Edge (job_graph jobs) a b ↔ Precedes jobs a b
unfolding job_graph
Edge-job_graph jobs a b =
    let e = Edge-add_jobs jobs new_graph a b in
    (
      (λ h. elim (e.0 h) [ inl x ↦ x | inr z ↦ absurd (unfold new_graph at get in z) ]),
      λ h. e.1 (inl h),
    )

add_afters-IsGraph :
    (name : Str) (afters : List Str) (g : Graph) → IsGraph g → IsGraph (add_afters name afters g)
unfolding add_afters
add_afters-IsGraph name [] g v = v
add_afters-IsGraph name (after ∷ afters) g v =
    add_afters-IsGraph name afters (add_edge after name g) (add_edge-IsGraph after name g v)

add_jobs-IsGraph : (jobs : List Job) (g : Graph) → IsGraph g → IsGraph (add_jobs jobs g)
unfolding add_jobs
add_jobs-IsGraph [] g v = v
add_jobs-IsGraph (j ∷ jobs) g v =
    add_jobs-IsGraph jobs (add_afters j.name j.after g) (add_afters-IsGraph j.name j.after g v)

job_graph-IsGraph : (jobs : List Job) → IsGraph (job_graph jobs)
unfolding job_graph
job_graph-IsGraph jobs = add_jobs-IsGraph jobs new_graph new_graph-IsGraph

-- What the filter gives: an error for jobs that wait for themselves, else the target's job and those
-- from which a path leads to it.
abbrev pub Keeps : Str → List Job → Option (List Job) → Type 0
Keeps target jobs none = (c : Str) × IsCycle (job_graph jobs) c
Keeps target jobs (some l) =
    (j : Job) → In j l ↔ (In j jobs × ((j.name ≡ target) ⊎ Walk (job_graph jobs) j.name target))

kept_lem :
    (target : Str) (jobs : List Job) (pres : List Str)
    → ((x : Str) → In x pres ↔ Walk (job_graph jobs) x target)
    → Keeps target jobs (some (filterb (λ j. mem_str j.name (target ∷ pres)) jobs))
kept_lem target jobs pres h j =
    let f = In-filterb_iff (λ (j : Job). mem_str j.name (target ∷ pres)) j jobs in
    (
      (λ m.
          let (k, e) = f.0 m in
          (
            k,
            elim (mem_str→In j.name (target ∷ pres) e) [
              | inl q ↦ inl q
              | inr q ↦ inr ((h j.name).0 q)
            ],
          )),
      λ m. f.1 (
        m.0,
        In→mem_str j.name (target ∷ pres)
            (elim (m.1) [ inl q ↦ inl q | inr q ↦ inr ((h j.name).1 q) ]),
      ),
    )

-- The trigger's filter ends on all jobs. It fails only if a path of jobs leads back to its start, and
-- else keeps exactly the jobs with the target's name and those from which a path leads to it.
pub filter_dependent_jobs-Keeps :
    (target : Str) (jobs : List Job)
    → (r : Option (List Job)) × (filter_dependent_jobs target jobs ≡ some r) × Keeps target jobs r
unfolding filter_dependent_jobs dependent_jobs get_graph
filter_dependent_jobs-Keeps target jobs =
    let g = job_graph jobs in
    let v = job_graph-IsGraph jobs in
    let (b, e, c) = is_cyclic_decides g v in
    elim (Bool-cases b) [
      | inl t ↦ (none, ground (arith, e, t), c.0 t)
      | inr f ↦
          let k : is_cyclic g ≡ some false = cc (e, f) in
          let (l, q, h) =
            get_pres-GivesAncestors g (suc (length g.nodes)) target v k (omega arith) in
          (
            some (filterb (λ j. mem_str j.name (target ∷ l)) jobs),
            ground (arith, k, q),
            kept_lem target jobs l h,
          )
    ]
