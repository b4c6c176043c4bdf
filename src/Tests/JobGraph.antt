-- ===== src/Tests/JobGraph.antt =====
-- The job graph of three jobs of which one stands apart.
use cicd_operator.Base.{nat_eq, str, str_eq, ◌≡◌, Option, none, some, List, [], ◌∷◌}
use cicd_operator.Api.{Job}
use cicd_operator.JobGraph.{filter_dependent_jobs}
use cicd_operator.JobGraph.Dependents.{Keeps, filter_dependent_jobs-Keeps}
use cicd_operator.Tests.Jobs.{plain_job}

abbrev three_jobs : List Job
three_jobs =
    plain_job (str "build") none []
    ∷ plain_job (str "test") none (str "build" ∷ [])
    ∷ plain_job (str "lint") none []
    ∷ []

filter_dependent_jobs-Keeps_example :
    (r : Option (List Job)) × (filter_dependent_jobs (str "test") three_jobs ≡ some r)
    × Keeps (str "test") three_jobs r
filter_dependent_jobs-Keeps_example = filter_dependent_jobs-Keeps (str "test") three_jobs
