-- ===== src/ConfigController/Webhooks.antt =====
-- controllers/integrationconfig_controller.go: setWebhookRegisteredCond, and the deletion of webhooks.
use cicd_operator.Base.{
  if◌then◌else◌, anyb, filterb, ◌==◌, nat_eq, Str, str, str_eq, Bool, true, false, not, Option,
  none, some, List, [], ◌∷◌, ◌++◌, map,
}
use cicd_operator.Api.{IntegrationConfig, has_token}
use cicd_operator.GitClient.{Failure, Result, ok, err}
use cicd_operator.JobController.{error_text}
use cicd_operator.ConfigController.State.{
  is_true, is_false, StatusCondition, ConfigObject, Hook, ConfigEffect, register_hook, delete_hook,
  ConfigWorld,
}

-- `GetWebhookServerAddress`
unfoldable pub get_webhook_server_address : Str → IntegrationConfig → Str
get_webhook_server_address host c =
    str "http://" ++ (host ++ (str "/webhook/" ++ (c.namespace ++ (b'/' ∷ c.name))))

unfoldable pub not_registered : Option StatusCondition → StatusCondition
not_registered none = record { status = is_false; reason = str "NotRegistered"; message = [] }
not_registered (some c) = c

unfoldable pub is_unregistered : StatusCondition → Bool
is_unregistered c = elim c.status [ is_false ↦ true | _ ↦ false ]

unfoldable pub refused_condition : Str → StatusCondition
refused_condition text = record {
  status = is_false;
  reason = str "webhookRegisterFailed";
  message = text;
}

module _ (w : ConfigWorld) where
  -- The webhooks at the object's own address.
  unfoldable pub hooks_of : ConfigObject → Result (List Hook) → List ConfigEffect
  unfolding get_webhook_server_address
  hooks_of o (err e) = []
  hooks_of o (ok hooks) =
      map (λ h. delete_hook h.id)
        (filterb (λ h. h.url == get_webhook_server_address w.host o.config) hooks)

  -- Webhooks are deleted only with a token and a client.
  unfoldable pub delete_hooks : ConfigObject → Bool → Result (Unit {0}) → List ConfigEffect
  unfolding hooks_of
  delete_hooks o true (ok u) = hooks_of o w.list_webhook
  delete_hooks o _ _ = []

  -- `RegisterWebhook`: the condition, and the error that is left.
  unfoldable pub attempt_register : Str → StatusCondition × List ConfigEffect × Option Failure
  unfolding refused_condition error_text
  attempt_register addr = elim w.register_error [
    | some e ↦ (refused_condition (error_text e), register_hook addr ∷ [], some e)
    | none ↦ (
      record { status = is_true; reason = str "Registered"; message = str "Webhook is registered" },
      register_hook addr ∷ [],
      none,
    )
  ]

  -- After an error of the list no webhook is known.
  unfoldable pub listed_hooks : Result (List Hook) → List Hook
  listed_hooks (err e) = []
  listed_hooks (ok l) = l

  unfoldable pub try_register :
      Str → Result (Unit {0}) → StatusCondition × List ConfigEffect × Option Failure
  unfolding attempt_register listed_hooks refused_condition error_text
  try_register addr (err e) =
      (record { status = is_false; reason = str "gitCliErr"; message = error_text e }, [], none)
  try_register addr (ok u) =
      if anyb (λ h. addr == h.url) (listed_hooks w.list_webhook)
      then (refused_condition (str "same webhook has already registered"), [], none)
      else attempt_register addr

  -- `setWebhookRegisteredCond`: a webhook is registered where the condition is false and there is a token.
  unfoldable pub set_webhook_registered :
      ConfigObject → StatusCondition → StatusCondition × List ConfigEffect × Option Failure
  unfolding try_register get_webhook_server_address is_unregistered
  set_webhook_registered o c =
      if not (has_token o.config.git)
      then (
        record c { reason = str "noGitToken"; message = str "Skipped to register webhook" },
        [],
        none,
      )
      else if is_unregistered c
      then try_register (get_webhook_server_address w.host o.config) w.git_cli
      else (c, [], none)
