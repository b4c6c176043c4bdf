-- ===== src/Api/Tasks.antt =====
-- api/v1/job_types.go, noti_types.go and integrationconfig_types.go: what a job asks Tekton to run.
use cicd_operator.Base.{Str, Bool, Option, List}
use cicd_operator.Tekton.{TaskRef, ResourceBindings, TaskWorkspace}

pub record ParameterDefine : Type 0 where
  pub name : Str
  pub default_str : Str
  pub default_array : Option (List Str)
  pub description : Str

pub record ParameterValue : Type 0 where
  pub name : Str
  pub string_val : Str
  pub array_val : Option (List Str)

pub record ParameterConfig : Type 0 where
  pub param_define : List ParameterDefine
  pub param_value : List ParameterValue

pub record JobTaskRef : Type 0 where
  pub local : Option TaskRef
  pub catalog : Str

pub record TektonTask : Type 0 where
  pub task_ref : JobTaskRef
  pub params : List ParameterValue
  pub resources : Option ResourceBindings
  pub workspaces : List TaskWorkspace

pub record ApprovalUser : Type 0 where
  pub name : Str
  pub email : Str

-- The config map is given by its name.
pub record JobApproval : Type 0 where
  pub approvers : List ApprovalUser
  pub approvers_config_map : Option Str
  pub request_message : Str

pub record NotiEmail : Type 0 where
  pub receivers : List Str
  pub title : Str
  pub content : Str
  pub is_html : Bool

pub record NotiSlack : Type 0 where
  pub url : Str
  pub message : Str

pub record NotificationMethods : Type 0 where
  pub email : Option NotiEmail
  pub slack : Option NotiSlack

pub record Notification : Type 0 where
  pub on_success : Option NotificationMethods
  pub on_failure : Option NotificationMethods
