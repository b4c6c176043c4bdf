-- ===== src/Tekton.antt =====
-- The objects of Tekton and Kubernetes that pkg/pipelinemanager writes, with the fields that it sets.
use cicd_operator.Base.{Str, Map, ℕ, Option, List}

pub data ParamType : Type 0 where
  string_type array_type : ParamType

-- `ArrayOrString`, whose type tells which value it holds.
pub data ArrayOrString : Type 0 where
  string_val : Str → ArrayOrString
  array_val : List Str → ArrayOrString

pub record Param : Type 0 where
  pub name : Str
  pub value : ArrayOrString

pub record ParamSpec : Type 0 where
  pub name : Str
  pub type : ParamType
  pub description : Str
  pub default : ArrayOrString

pub record EnvVar : Type 0 where
  pub name : Str
  pub value : Str

-- A container of Kubernetes, which a job embeds.
pub record Container : Type 0 where
  pub image : Str
  pub working_dir : Str
  pub env : List EnvVar

pub record TaskStep : Type 0 where
  pub name : Str
  pub container : Container
  pub script : Str

pub record TaskRef : Type 0 where
  pub name : Str
  pub kind : Str
  pub api_version : Str

-- `PipelineResourceBinding`: the type of its `ResourceSpec`, and the name of its `ResourceRef`.
pub record ResourceBinding : Type 0 where
  pub name : Str
  pub spec : Option Str
  pub ref : Option Str

pub record ResourceBindings : Type 0 where
  pub inputs : List ResourceBinding
  pub outputs : List ResourceBinding

pub record DeclaredResource : Type 0 where
  pub name : Str
  pub type : Str

-- `PipelineTaskInputResource` and `PipelineTaskOutputResource`
pub record TaskResource : Type 0 where
  pub name : Str
  pub resource : Str

pub record TaskResources : Type 0 where
  pub inputs : List TaskResource
  pub outputs : List TaskResource

pub record TaskWorkspace : Type 0 where
  pub name : Str
  pub workspace : Str

pub record WhenExpression : Type 0 where
  pub input : Str
  pub operator : Str
  pub values : List Str

pub record TaskResult : Type 0 where
  pub name : Str
  pub description : Str

-- `workspaces` are the names of the declarations.
pub record TaskSpec : Type 0 where
  pub steps : List TaskStep
  pub workspaces : List Str
  pub results : List TaskResult

pub record PipelineTask : Type 0 where
  pub name : Str
  pub task_ref : Option TaskRef
  pub task_spec : Option TaskSpec
  pub params : List Param
  pub resources : Option TaskResources
  pub workspaces : List TaskWorkspace
  pub run_after : List Str
  pub when_expressions : List WhenExpression

-- A `PipelineRun` as it is created; `resources` are those of its spec, `declared` those of the pipeline's.
pub record NewRun : Type 0 where
  pub name : Str
  pub namespace : Str
  pub labels : Map Str Str
  pub service_account_name : Str
  pub resources : List ResourceBinding
  pub declared : List DeclaredResource
  pub tasks : List PipelineTask
  pub workspaces : List Str
  pub param_specs : List ParamSpec
  pub params : List Param
  pub timeout : ℕ

pub record Owner : Type 0 where
  pub api_version : Str
  pub kind : Str
  pub name : Str
