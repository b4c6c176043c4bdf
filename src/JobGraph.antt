-- ===== src/JobGraph.antt =====
-- Jobs.GetGraph of api/v1/job_types.go, and the jobs that the trigger command of
-- pkg/chatops/plugins/trigger/handlers_trigger.go keeps. The outer option is none for a recursion that has
-- not ended with its fuel, the inner one for an error.
pub mod Dependents
use cicd_operator.Base.{
  if◌then◌else◌, nat_eq, length, filterb, Str, str_eq, pos, negsuc, zero, suc, refl, Option, none,
  some, List, [], ◌∷◌, arith,
}
use cicd_operator.Api.{Job}
use cicd_operator.Structs.Graph.{Graph, new_graph, add_edge, is_cyclic, get_pres, mem_str}

-- The inner loop: an edge from each job that the job comes after.
unfoldable pub add_afters : Str → List Str → Graph → Graph
unfolding add_edge
add_afters name [] g = g
add_afters name (after ∷ afters) g = add_afters name afters (add_edge after name g)

unfoldable pub add_jobs : List Job → Graph → Graph
unfolding add_afters
add_jobs [] g = g
add_jobs (job ∷ jobs) g = add_jobs jobs (add_afters job.name job.after g)

unfoldable pub job_graph : List Job → Graph
unfolding add_jobs new_graph
job_graph jobs = add_jobs jobs new_graph

unfoldable pub get_graph : List Job → Option (Option Graph)
unfolding job_graph is_cyclic
get_graph jobs = elim (is_cyclic (job_graph jobs)) [
  | none ↦ none
  | some cyclic ↦ some (if cyclic then none else some (job_graph jobs))
]

-- The names that are kept, the wanted one among them.
unfoldable pub dependent_jobs : Str → List Job → Option (Option (List Str))
unfolding get_graph get_pres
dependent_jobs wanted jobs = elim (get_graph jobs) [
  | none ↦ none
  | some none ↦ some none
  | some (some g) ↦ elim (get_pres (suc (length g.nodes)) g wanted) [
    | none ↦ none
    | some pres ↦ some (some (wanted ∷ pres))
  ]
]

unfoldable pub filter_dependent_jobs : Str → List Job → Option (Option (List Job))
unfolding dependent_jobs
filter_dependent_jobs target jobs = elim (dependent_jobs target jobs) [
  | none ↦ none
  | some none ↦ some none
  | some (some names) ↦ some (some (filterb (λ j. mem_str j.name names) jobs))
]
