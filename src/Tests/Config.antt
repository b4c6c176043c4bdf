-- ===== src/Tests/Config.antt =====
-- controllers/integrationconfig_controller.go with one new config and a server that takes each webhook.
use cicd_operator.Base.{nat_eq, In, str_beq, Str, str, str_eq, refl, none, [], ◌∷◌, inl, inr}
use cicd_operator.Api.{is_set, get_api_url}
use cicd_operator.GitClient.{ok}
use cicd_operator.JobController.{finalizer, has_finalizer}
use cicd_operator.Tests.ChatOps.{config}
use cicd_operator.ConfigController.GitSecret.{
  GitSecret, update_git_secret, get_git_host, get_token, needs_patch, with_token, lacks_host,
  public_url,
}
use cicd_operator.ConfigController.State.{
  ConfigObject, ConfigWorld, register_hook, write_secret, bump_v050, set_secret_string,
  registered_condition, set_ready_cond, is_settled, is_registered,
}
use cicd_operator.ConfigController.Webhooks.{
  get_webhook_server_address, set_webhook_registered, not_registered, is_unregistered, try_register,
  attempt_register, listed_hooks,
}
use cicd_operator.ConfigController.Accounts.{
  create_service_account, add_secrets, write_service_account, with_accounts, with_secret,
  create_git_secret, store_secret,
}
use cicd_operator.ConfigController.Reconcile.{
  reconcile_config, handle_finalizer, finalizer_step, after_finalizer, reconcile_live,
  set_periodic_trigger,
}
use cicd_operator.ConfigController.Hooks.{registered_once}
use cicd_operator.ConfigController.Stored.{secret_written_once}

abbrev no_secret : GitSecret
no_secret = record { annotations = none; type = []; contents = none }

abbrev world : ConfigWorld
world = record {
  host = str "ci.example.com";
  git_cli = ok tt;
  list_webhook = ok [];
  register_error = none;
  reset_time = λ e. 0;
  random = str "abcdefghijklmnopqrst";
  account = ok [];
  owner_error = none;
  write_error = none;
  git_secret = ok no_secret;
  get_secret = λ name namespace. ok [];
  parse_url = λ s. ok (record { scheme = str "https"; host = str "github.com" });
  secret_owner_error = none;
  secret_write_error = none;
}

abbrev new_config : ConfigObject
new_config = record {
  config = config;
  deletion_timestamp = none;
  finalizers = finalizer ∷ [];
  spec_secrets = [];
  secrets = [];
  ready = none;
  registered = none;
}

abbrev address : Str
address = get_webhook_server_address (str "ci.example.com") config

hook_requested : In (register_hook address) (reconcile_config world new_config []).0.effects
unfolding reconcile_config bump_v050 handle_finalizer finalizer_step after_finalizer reconcile_live
    set_webhook_registered set_secret_string not_registered registered_condition is_unregistered
    try_register attempt_register listed_hooks has_finalizer is_set get_webhook_server_address
    str_beq
hook_requested = inl refl

abbrev registered_config : ConfigObject
registered_config = record new_config {
  registered = (reconcile_config world new_config []).0.object.registered;
}

registered_once_example :
    ¬ In (register_hook address) (reconcile_config world registered_config []).0.effects
registered_once_example =
    registered_once world world new_config registered_config [] [] address address hook_requested
      refl refl

abbrev git_secret : GitSecret
git_secret = with_token (str "https://github.com") (str "t") no_secret

secret_requested : In (write_secret git_secret) (reconcile_config world new_config []).0.effects
unfolding reconcile_config bump_v050 handle_finalizer finalizer_step after_finalizer reconcile_live
    set_webhook_registered set_secret_string not_registered registered_condition is_unregistered
    try_register attempt_register listed_hooks has_finalizer is_set get_webhook_server_address
    str_beq set_periodic_trigger set_ready_cond is_settled is_registered create_service_account
    add_secrets write_service_account with_accounts with_secret create_git_secret store_secret
    update_git_secret get_git_host get_token needs_patch lacks_host public_url get_api_url
secret_requested = inr (inr (inl refl))

abbrev later : ConfigWorld
later = record world { git_secret = ok git_secret }

secret_written_once_example :
    ¬ In (write_secret git_secret) (reconcile_config later registered_config []).0.effects
secret_written_once_example =
    secret_written_once world later new_config registered_config [] [] git_secret git_secret
      secret_requested refl refl refl
