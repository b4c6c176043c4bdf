-- ===== src/ConfigController/Reconcile.antt =====
-- controllers/integrationconfig_controller.go: Reconcile.
use cicd_operator.Base.{
  if◌then◌else◌, ltb, anyb, filterb, ◌==◌, nat_eq, ℕ, Str, str_eq, Bool, true, false, not, Option,
  none, some, List, [], ◌∷◌, ◌++◌,
}
use cicd_operator.Api.{is_set, has_token}
use cicd_operator.GitClient.{Failure}
use cicd_operator.JobController.{finalizer, has_finalizer, remove_finalizer}
use cicd_operator.ConfigController.State.{
  ConfigObject, ConfigEffect, start_trigger, stop_trigger, ConfigWorld, bump_v050,
  set_secret_string, set_ready_cond,
}
use cicd_operator.ConfigController.Webhooks.{delete_hooks, not_registered, set_webhook_registered}
use cicd_operator.ConfigController.Accounts.{create_service_account, with_accounts}

-- What is left of an object, the requests, and the keys of the triggers.
pub record Reconciled : Type 0 where
  pub object : ConfigObject
  pub effects : List ConfigEffect
  pub triggers : List Str

unfoldable pub trigger_key : ConfigObject → Str
trigger_key o = o.config.name ++ o.config.namespace

unfoldable pub set_periodic_trigger : ConfigObject → List Str → List ConfigEffect × List Str
unfolding trigger_key
set_periodic_trigger o keys = elim o.config.jobs.periodic_jobs [
  | [] ↦ ([], keys)
  | p ∷ l ↦
      if anyb (λ k. k == trigger_key o) keys
      then ([], keys)
      else (start_trigger (trigger_key o) ∷ [], trigger_key o ∷ keys)
]

module _ (w : ConfigWorld) where
  unfoldable pub stop_periodic_trigger : ConfigObject → List Str → List ConfigEffect × List Str
  unfolding trigger_key
  stop_periodic_trigger o keys =
      if anyb (λ k. k == trigger_key o) keys
      then (stop_trigger (trigger_key o) ∷ [], filterb (λ k. not (k == trigger_key o)) keys)
      else ([], keys)

  -- By whether the finalizer is set, and whether the object is being deleted.
  unfoldable pub finalizer_step : Bool → Bool → ConfigObject → List Str → Option Reconciled
  unfolding delete_hooks stop_periodic_trigger remove_finalizer
  finalizer_step false deleted o keys = some (record {
    object = record o { finalizers = o.finalizers ++ finalizer ∷ [] };
    effects = [];
    triggers = keys;
  })
  finalizer_step true true o keys = some (record {
    object = record o { finalizers = remove_finalizer o.finalizers };
    effects =
        delete_hooks w o (has_token o.config.git) w.git_cli ++ (stop_periodic_trigger o keys).0;
    triggers = (stop_periodic_trigger o keys).1;
  })
  finalizer_step true false o keys = none

  -- `handleFinalizer`, where it exits.
  unfoldable pub handle_finalizer : ConfigObject → List Str → Option Reconciled
  unfolding has_finalizer is_set finalizer_step
  handle_finalizer o keys =
      finalizer_step (has_finalizer o.finalizers) (is_set o.deletion_timestamp) o keys

  -- The time after which to try again, if the server tells when its limit is reset.
  unfoldable pub retry_at : Option Failure → Option ℕ
  retry_at none = none
  retry_at (some e) = if ltb 0 (w.reset_time e) then some (w.reset_time e) else none

  -- The rest of `Reconcile`, where the finalizer is set: the outcome, and the time to try again.
  unfoldable pub reconcile_live : ConfigObject → List Str → Reconciled × Option ℕ
  unfolding set_webhook_registered not_registered set_secret_string set_ready_cond
      set_periodic_trigger create_service_account with_accounts retry_at
  reconcile_live o keys =
      let named = set_secret_string w.random o in
      let (cond, hooks, error) = set_webhook_registered w named (not_registered named.registered) in
      let prepared = set_ready_cond (record named { registered = some cond }) in
      let (started, keys') = set_periodic_trigger prepared keys in
      let (settled, written, done) =
        with_accounts w prepared (create_service_account w prepared w.account) in
      (
        record { object = settled; effects = hooks ++ (started ++ written); triggers = keys' },
        if done then retry_at error else none,
      )

  unfoldable pub after_finalizer :
      Option Reconciled → ConfigObject → List Str → Reconciled × Option ℕ
  unfolding reconcile_live
  after_finalizer (some left) o keys = (left, none)
  after_finalizer none o keys = reconcile_live o keys

  -- `Reconcile` of a config that is there; its object is patched in the end.
  unfoldable pub reconcile_config : ConfigObject → List Str → Reconciled × Option ℕ
  unfolding bump_v050 handle_finalizer after_finalizer
  reconcile_config o keys = after_finalizer (handle_finalizer (bump_v050 o) keys) (bump_v050 o) keys
