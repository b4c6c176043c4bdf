-- ===== src/PipelineManager/Generate.antt =====
-- pkg/pipelinemanager/pipelinemanager.go: Generate, which makes the PipelineRun of a job.
use cicd_operator.Base.{Str, str, Map, put, ℕ, Option, none, some, List, [], ◌∷◌, ◌++◌, map, str_eq}
use cicd_operator.Tekton.{
  string_type, array_type, ArrayOrString, Param, ParamSpec, ResourceBinding, DeclaredResource,
  TaskSpec, PipelineTask, NewRun,
}
use cicd_operator.Api.{Job, RefsPull, IntegrationJob}
use cicd_operator.Api.Tasks.{ParameterDefine, ParameterConfig}
use cicd_operator.GitClient.{Result, ok, err, failed, panicked}
use cicd_operator.GitClient.Results.{◌>>=◌, each}
use cicd_operator.PipelineManager.Envs.{Url, fill_default_envs}
use cicd_operator.PipelineManager.Tasks.{convert_to_tekton_param, generate_task}

-- What Generate takes from outside: the catalog, url.Parse, the type of a PipelineResource by name and namespace,
-- strconv.Itoa, Tekton's NewArrayOrString and `configs.GitImage`.
pub record Services : Type 0 where
  pub fetch_catalog : Str → Str → Result TaskSpec
  pub parse_url : Str → Result Url
  pub resource_type : Str → Str → Result Str
  pub itoa : ℕ → Str
  pub new_array_or_string : Str → List Str → ArrayOrString
  pub git_image : Str

-- `GetServiceAccountName`
unfoldable pub get_service_account_name : Str → Str
get_service_account_name config_name = config_name ++ str "-sa"

module _ (s : Services) where
  -- `ConvertToTektonParamSpecs`, for one; an empty list of defaults is an index out of range.
  unfoldable pub convert_to_tekton_param_spec : ParameterDefine → Result ParamSpec
  convert_to_tekton_param_spec p = elim p.default_array [
    | none ↦ ok (record {
      name = p.name;
      type = string_type;
      description = p.description;
      default = s.new_array_or_string p.default_str [];
    })
    | some l ↦ elim l [
      | [] ↦ err panicked
      | x ∷ xs ↦ ok (record {
        name = p.name;
        type = array_type;
        description = p.description;
        default = s.new_array_or_string x xs;
      })
    ]
  ]

  unfoldable pub get_params : Option ParameterConfig → Result (List ParamSpec × List Param)
  unfolding convert_to_tekton_param_spec each convert_to_tekton_param
  get_params none = ok ([], [])
  get_params (some c) = do
    specs ← each convert_to_tekton_param_spec c.param_define
    ok (specs, map convert_to_tekton_param c.param_value)

  unfoldable pub resource_type_of : Str → ResourceBinding → Result Str
  resource_type_of namespace binding = elim binding.spec [
    | some type ↦ ok type
    | none ↦ elim binding.ref [
      | some name ↦ s.resource_type name namespace
      | none ↦ err (failed (str "resource specs are all nil"))
    ]
  ]

  unfoldable pub convert_resource_to_spec : Str → ResourceBinding → Result DeclaredResource
  unfolding resource_type_of
  convert_resource_to_spec namespace binding = do
    type ← resource_type_of namespace binding
    ok (record { name = binding.name; type = type })

  -- The loop over the jobs: the tasks, the resources of the run and those that the pipeline declares.
  unfoldable pub generate_tasks :
      IntegrationJob
      → List Job
      → Result (List PipelineTask × List ResourceBinding × List DeclaredResource)
  unfolding generate_task convert_resource_to_spec each
  generate_tasks job [] = ok ([], [], [])
  generate_tasks job (j ∷ jobs) = do
    (task, resources) ← generate_task s.fetch_catalog s.git_image job j
    declared ← each (convert_resource_to_spec job.namespace) resources
    (tasks, bound, specs) ← generate_tasks job jobs
    ok (task ∷ tasks, resources ++ bound, declared ++ specs)

  unfoldable pub pull_labels : Option (List RefsPull) → Map Str Str → Result (Map Str Str)
  unfolding put
  pull_labels none labels = ok labels
  pull_labels (some []) labels = err panicked
  pull_labels (some (p ∷ l)) labels = ok (
      put (str "cicd.tmax.io/pull-request-sha") p.sha
        (put (str "cicd.tmax.io/pull-request") (s.itoa p.id) labels))

  unfoldable pub generate_label : IntegrationJob → Result (Map Str Str)
  unfolding pull_labels put
  generate_label job = pull_labels job.spec.refs.pulls (
      (str "cicd.tmax.io/integration-job", job.name)
      ∷ (str "cicd.tmax.io/integration-job-id", job.spec.id)
      ∷ [])

  unfoldable pub generate : IntegrationJob → Result NewRun
  unfolding get_params generate_tasks fill_default_envs generate_label get_service_account_name
  generate job = do
    (param_specs, params) ← get_params job.spec.param_config
    (generated, resources, declared) ← generate_tasks job job.spec.jobs
    tasks ← fill_default_envs s.parse_url generated job
    labels ← generate_label job
    ok (record {
      name = job.name;
      namespace = job.namespace;
      labels = labels;
      service_account_name = get_service_account_name job.spec.config_ref.name;
      resources = resources;
      declared = declared;
      tasks = tasks;
      workspaces = job.spec.workspaces;
      param_specs = param_specs;
      params = params;
      timeout = job.spec.timeout;
    })
