-- ===== src/ConfigController/Hooks.antt =====
-- controllers/integrationconfig_controller.go: when a webhook is registered.
use cicd_operator.Base.{
  In, nat_eq, Str, str_eq, ◌≡◌, refl, sym, ◌∙◌, inl, inr, Option, none, some, List, arith,
}
use mathlib.Core.Path.{subst}
use cicd_operator.GitClient.{Failure}
use cicd_operator.ConfigController.State.{
  is_true, StatusCondition, ConfigObject, register_hook, ConfigEffect, ConfigWorld, upgrade,
  bump_v050, registered_condition, set_secret_string, set_ready_cond, not_ready,
}
use cicd_operator.ConfigController.Webhooks.{
  attempt_register, is_unregistered, not_registered, set_webhook_registered, try_register,
}
use cicd_operator.ConfigController.Accounts.{create_service_account, with_accounts, with_secret}
use cicd_operator.ConfigController.Reconcile.{
  Reconciled, after_finalizer, handle_finalizer, reconcile_live, reconcile_config,
}
use cicd_operator.ConfigController.Effects.{
  stage_of, exit-step, with_secrets, prepared, live-registers,
}

-- The webhook is known to be registered.
abbrev IsDone : Option StatusCondition → Type 0
IsDone none = ⊥
IsDone (some c) = c.status ≡ is_true

ready-registered : (o : ConfigObject) → (set_ready_cond o).registered ≡ o.registered
unfolding set_ready_cond
ready-registered o = ground arith

module _ (w : ConfigWorld) where
  with_secret-registered :
      (o : ConfigObject) (p : List ConfigEffect × Option Failure)
      → (with_secret w o p).0.registered ≡ o.registered
  unfolding with_secret not_ready
  with_secret-registered o (l, some e) = refl
  with_secret-registered o (l, none) = refl

  accounts-registered :
      (o : ConfigObject) (p : List ConfigEffect × Option Failure)
      → (with_accounts w o p).0.registered ≡ o.registered
  unfolding with_accounts not_ready
  accounts-registered o (l, some e) = refl
  accounts-registered o (l, none) = with_secret-registered o _

  -- A request to register that the server takes settles the condition.
  register-IsDone :
      (o : ConfigObject) (c : StatusCondition) (a : Str)
      → w.register_error ≡ none
      → In (register_hook a) (set_webhook_registered w o c).1
      → (set_webhook_registered w o c).0.status ≡ is_true
  unfolding set_webhook_registered try_register attempt_register
  register-IsDone o c a n h = ground arith

  done-no_hook :
      (o : ConfigObject) (c : StatusCondition) (a : Str)
      → c.status ≡ is_true
      → ¬ In (register_hook a) (set_webhook_registered w o c).1
  unfolding set_webhook_registered is_unregistered
  done-no_hook o c a d h = ground arith

  live-registered :
      (o : ConfigObject) (keys : List Str)
      → (reconcile_live w o keys).0.object.registered
        ≡ some
            (set_webhook_registered w
              (with_secrets w o)
              (not_registered (with_secrets w o).registered)).0
  unfolding reconcile_live
  live-registered o keys =
      accounts-registered (prepared w o) (create_service_account w (prepared w o) w.account)
      ∙ ready-registered _

  secret-registered : (o : ConfigObject) → (set_secret_string w.random o).registered ≡ o.registered
  unfolding set_secret_string
  secret-registered o = ground arith

  bump-IsDone : (o : ConfigObject) → IsDone o.registered → IsDone (bump_v050 o).registered
  unfolding bump_v050 registered_condition upgrade
  bump-IsDone o d = done o.registered d
    where
      done : (r : Option StatusCondition) → IsDone r → IsDone (registered_condition r)
      done none h = h
      done (some c) h = h

  not_registered-done :
      (r : Option StatusCondition) → IsDone r → (not_registered r).status ≡ is_true
  unfolding not_registered
  not_registered-done none h = absurd h
  not_registered-done (some c) h = h

  exit-no_hook :
      (o : ConfigObject) (keys : List Str) (left : Reconciled) (a : Str)
      → handle_finalizer w o keys ≡ some left
      → ¬ In (register_hook a) left.effects
  unfolding stage_of
  exit-no_hook o keys left a e h = elim (exit-step w (register_hook a) o keys left e h) [
    | inl q ↦ cc q
    | inr q ↦ cc q
  ]

  live-hook :
      (o : ConfigObject) (keys : List Str) (a : Str)
      → In (register_hook a) (reconcile_live w o keys).0.effects
      → In
          (register_hook a)
          (set_webhook_registered w
            (with_secrets w o)
            (not_registered (with_secrets w o).registered)).1
  unfolding stage_of
  live-hook o keys a h = live-registers w (register_hook a) o keys refl h

  settled_after :
      (f : Option Reconciled) (o : ConfigObject) (keys : List Str) (a : Str)
      → IsDone o.registered
      → handle_finalizer w (bump_v050 o) keys ≡ f
      → ¬ In (register_hook a) (after_finalizer w f (bump_v050 o) keys).0.effects
  unfolding after_finalizer
  settled_after (some left) o keys a d e h = exit-no_hook (bump_v050 o) keys left a e h
  settled_after none o keys a d e h =
      let o' = bump_v050 o in
      done-no_hook (with_secrets w o') (not_registered (with_secrets w o').registered) a
        (not_registered-done (with_secrets w o').registered
          (subst IsDone (sym (secret-registered o')) (bump-IsDone o d)))
        (live-hook o' keys a h)

  -- Once the condition is settled no webhook is registered.
  settled-no_hook :
      (o : ConfigObject) (keys : List Str) (a : Str)
      → IsDone o.registered
      → ¬ In (register_hook a) (reconcile_config w o keys).0.effects
  unfolding reconcile_config
  settled-no_hook o keys a d h =
      settled_after (handle_finalizer w (bump_v050 o) keys) o keys a d refl h

  hook-IsDone_after :
      (f : Option Reconciled) (o : ConfigObject) (keys : List Str) (a : Str)
      → w.register_error ≡ none
      → handle_finalizer w o keys ≡ f
      → In (register_hook a) (after_finalizer w f o keys).0.effects
      → IsDone (after_finalizer w f o keys).0.object.registered
  unfolding after_finalizer
  hook-IsDone_after (some left) o keys a n e h = absurd (exit-no_hook o keys left a e h)
  hook-IsDone_after none o keys a n e h = subst IsDone (sym (live-registered o keys)) (
      register-IsDone (with_secrets w o) (not_registered (with_secrets w o).registered) a n
        (live-hook o keys a h))

  hook-IsDone :
      (o : ConfigObject) (keys : List Str) (a : Str)
      → w.register_error ≡ none
      → In (register_hook a) (reconcile_config w o keys).0.effects
      → IsDone (reconcile_config w o keys).0.object.registered
  unfolding reconcile_config
  hook-IsDone o keys a n h =
      hook-IsDone_after (handle_finalizer w (bump_v050 o) keys) (bump_v050 o) keys a n refl h

-- A webhook that a reconciliation has registered is not registered again, nor is another, by a later one of a config
-- that has the condition which the first one left, whatever else has changed.
pub registered_once :
    (w w' : ConfigWorld) (o o' : ConfigObject) (keys keys' : List Str) (a b : Str)
    → In (register_hook a) (reconcile_config w o keys).0.effects
    → w.register_error ≡ none
    → o'.registered ≡ (reconcile_config w o keys).0.object.registered
    → ¬ In (register_hook b) (reconcile_config w' o' keys').0.effects
registered_once w w' o o' keys keys' a b h n e =
    settled-no_hook w' o' keys' b (subst IsDone (sym e) (hook-IsDone w o keys a n h))
