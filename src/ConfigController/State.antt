-- ===== src/ConfigController/State.antt =====
-- controllers/integrationconfig_controller.go: the objects, and their conditions.
use cicd_operator.Base.{
  if◌then◌else◌, ◌==◌, nat_eq, ℕ, Str, str, str_eq, Bool, true, false, not, ◌&&◌, ◌||◌, Option,
  none, some, List, [], Map,
}
use cicd_operator.Api.{IntegrationConfig}
use cicd_operator.GitClient.{Failure, Result}
use cicd_operator.JobController.{error_text}
use cicd_operator.PipelineManager.Envs.{Url}
use cicd_operator.ConfigController.GitSecret.{GitSecret}

-- `metav1.ConditionStatus`
pub data Truth : Type 0 where
  is_unknown is_true is_false : Truth

pub record StatusCondition : Type 0 where
  pub status : Truth
  pub reason : Str
  pub message : Str

-- An IntegrationConfig with the parts of its metadata, spec and status that the controller changes or reads.
pub record ConfigObject : Type 0 where
  pub config : IntegrationConfig
  pub deletion_timestamp : Option ℕ
  pub finalizers : List Str
  pub spec_secrets : List Str
  pub secrets : Str
  pub ready : Option StatusCondition
  pub registered : Option StatusCondition

pub record Hook : Type 0 where
  pub id : ℕ
  pub url : Str

pub data ConfigEffect : Type 0 where
  register_hook : Str → ConfigEffect
  delete_hook : ℕ → ConfigEffect
  start_trigger stop_trigger : Str → ConfigEffect
  write_account : List Str → ConfigEffect
  write_secret : GitSecret → ConfigEffect

-- The answers of the git server and of the cluster: `account` are the secrets of the service account, none if it is not
-- there, `git_secret` is the git secret, `get_secret` the data of a secret by its name and namespace, `parse_url` is
-- url.Parse and `reset_time` CheckRateLimitGetResetTime of an error. `host` is `configs.CurrentExternalHostName`.
pub record ConfigWorld : Type 0 where
  pub host : Str
  pub git_cli : Result (Unit {0})
  pub list_webhook : Result (List Hook)
  pub register_error : Option Failure
  pub reset_time : Failure → ℕ
  pub random : Str
  pub account : Result (List Str)
  pub owner_error : Option Failure
  pub write_error : Option Failure
  pub git_secret : Result GitSecret
  pub get_secret : Str → Str → Result (Map Str Str)
  pub parse_url : Str → Result Url
  pub secret_owner_error : Option Failure
  pub secret_write_error : Option Failure

-- `upgradeV050Condition`
unfoldable pub upgrade : Str → Str → StatusCondition → StatusCondition
upgrade true_text false_text c =
    let text : Str = elim c.status [
      | is_true ↦ true_text
      | is_false ↦ false_text
      | is_unknown ↦ str "Unknown"
    ] in
    record c {
      reason = if c.reason == [] then text else c.reason;
      message = if c.message == [] then text else c.message;
    }

unfoldable pub ready_condition : Option StatusCondition → StatusCondition
unfolding upgrade
ready_condition none = record {
  status = is_false;
  reason = str "NotReady";
  message = str "Not ready";
}
ready_condition (some c) = upgrade (str "Ready") (str "NotReady") c

unfoldable pub registered_condition : Option StatusCondition → Option StatusCondition
unfolding upgrade
registered_condition none = none
registered_condition (some c) = some (upgrade (str "Registered") (str "NotRegistered") c)

-- `bumpV050`, and the default of the ready condition before it.
unfoldable pub bump_v050 : ConfigObject → ConfigObject
unfolding ready_condition registered_condition
bump_v050 o = record o {
  ready = some (ready_condition o.ready);
  registered = registered_condition o.registered;
}

unfoldable pub is_token_missing : StatusCondition → Bool
is_token_missing c = c.reason == str "noGitToken"

unfoldable pub is_registered : StatusCondition → Bool
is_registered c = elim c.status [ is_true ↦ true | _ ↦ false ]

unfoldable pub set_secret_string : Str → ConfigObject → ConfigObject
set_secret_string random o = if o.secrets == [] then record o { secrets = random } else o

-- Registered, or skipped for want of a token.
unfoldable pub is_settled : Option StatusCondition → Bool
unfolding is_registered is_token_missing
is_settled none = false
is_settled (some c) = is_registered c || is_token_missing c

unfoldable pub set_ready_cond : ConfigObject → ConfigObject
unfolding is_settled
set_ready_cond o =
    if not (o.secrets == []) && is_settled o.registered
    then record o {
      ready = some (record { status = is_true; reason = str "Ready"; message = str "Ready" });
    }
    else o

unfoldable pub not_ready : Str → Failure → ConfigObject → ConfigObject
unfolding error_text
not_ready reason e o = record o {
  ready = some (record { status = is_false; reason = reason; message = error_text e });
}
