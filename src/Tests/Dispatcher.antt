-- ===== src/Tests/Dispatcher.antt =====
-- pkg/dispatcher at an opened pull request and a pushed tag.
use cicd_operator.Base.{
  ◌==◌, nat_eq, arith, Str, str, str_eq, ◌≡◌, refl, Bool, Option, none, some, [], ◌∷◌,
}
use cicd_operator.Api.{
  IntegrationConfig, IntegrationJob, ConfigJobs, GitConfig, github, JobWhen, Job,
}
use cicd_operator.Git.{Repository, User, Webhook, pull_request}
use cicd_operator.Dispatcher.{handle}
use cicd_operator.Dispatcher.Pulls.{Asks, handle_pull}
use cicd_operator.Tests.Blocker.{reviewed}
use cicd_operator.Tests.Jobs.{plain_job}

abbrev plain : Job
plain = plain_job (str "test") none []

abbrev on_main : Job
on_main =
    let w : JobWhen = record {
      branch = some (str "main" ∷ []);
      skip_branch = none;
      tag = none;
      skip_tag = none;
    } in
    plain_job (str "deploy") (some w) []

-- Patterns are compared as they stand.
abbrev literal : Str → Option (Str → Bool)
literal pattern = some (λ s. s == pattern)

abbrev one_job : IntegrationConfig
one_job =
    let git : GitConfig = record {
      type = github;
      repository = str "r";
      api_url = [];
      token = some (record { value = str "t"; value_from = none });
    } in
    let jobs : ConfigJobs = record {
      pre_submit_jobs = plain ∷ on_main ∷ [];
      post_submit_jobs = [];
      periodic_jobs = [];
    } in
    record {
      name = str "cfg";
      namespace = str "ci";
      git = git;
      workspaces = [];
      jobs = jobs;
      merge_config = none;
      timeout = none;
      param_config = none;
    }

abbrev repo : Repository
repo = record { name = str "r"; url = str "u" }

abbrev sender : User
sender = record { id = 1; name = str "kim"; email = [] }

abbrev opened_event : Webhook
opened_event = record {
  event_type = pull_request;
  repo = repo;
  sender = sender;
  push_event = none;
  pull = some reviewed;
  comment = none;
}

handle_pull_example :
    (o : Option IntegrationJob) × (e : Option Str) × (handle literal 1
        (str "abcdef")
        (λ j. none)
        opened_event
        one_job
      ≡ some (o, e))
    × Asks literal 1 (str "abcdef") (λ j. none) one_job reviewed o e
handle_pull_example =
    handle_pull literal 1 (str "abcdef") (λ j. none) opened_event one_job reviewed refl refl
      (omega arith) (omega arith)
