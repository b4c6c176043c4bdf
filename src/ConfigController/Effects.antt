-- ===== src/ConfigController/Effects.antt =====
-- controllers/integrationconfig_controller.go: which step of a reconciliation makes which request.
use cicd_operator.Base.{
  map, In, In-append, nat_eq, Str, str_eq, ◌≡◌, refl, sym, ◌⊎◌, inl, inr, Bool, true, false, Option,
  none, some, List, [], ◌∷◌, arith,
}
use mathlib.Core.Path.{subst}
use cicd_operator.Api.{is_set, has_token}
use cicd_operator.JobController.{has_finalizer}
use cicd_operator.GitClient.{Failure, Result, ok, err}
use cicd_operator.ConfigController.GitSecret.{GitSecret}
use cicd_operator.ConfigController.State.{
  StatusCondition, ConfigObject, Hook, ConfigEffect, register_hook, delete_hook, start_trigger,
  stop_trigger, write_account, write_secret, ConfigWorld, set_secret_string, set_ready_cond,
}
use cicd_operator.ConfigController.Webhooks.{
  hooks_of, delete_hooks, not_registered, set_webhook_registered, try_register, attempt_register,
}
use cicd_operator.ConfigController.Accounts.{
  write_service_account, create_service_account, store_secret, create_git_secret, with_secret,
  with_accounts,
}
use cicd_operator.ConfigController.Reconcile.{
  Reconciled, set_periodic_trigger, stop_periodic_trigger, finalizer_step, handle_finalizer,
  reconcile_live,
}

pub data Stage : Type 0 where
  registers deletes triggers writes : Stage

unfoldable pub stage_of : ConfigEffect → Stage
stage_of (register_hook a) = registers
stage_of (delete_hook n) = deletes
stage_of (start_trigger s) = triggers
stage_of (stop_trigger s) = triggers
stage_of (write_account l) = writes
stage_of (write_secret s) = writes

left_effects : {a b : Reconciled} → some a ≡ some b → a.effects ≡ b.effects
left_effects e = ground arith

module _ (w : ConfigWorld) where
  -- The config that a live reconciliation registers, and the one that it writes for.
  abbrev pub with_secrets : ConfigObject → ConfigObject
  with_secrets o = set_secret_string w.random o

  abbrev pub prepared : ConfigObject → ConfigObject
  prepared o = set_ready_cond (record (with_secrets o) {
    registered =
        some
          (set_webhook_registered w (with_secrets o)
            (not_registered (with_secrets o).registered)).0;
  })

module _ (w : ConfigWorld) (x : ConfigEffect) where
  hooks-step :
      (o : ConfigObject) (c : StatusCondition)
      → In x (set_webhook_registered w o c).1
      → stage_of x ≡ registers
  unfolding set_webhook_registered try_register attempt_register stage_of
  hooks-step o c h = ground arith

  triggers-step :
      (o : ConfigObject) (keys : List Str)
      → In x (set_periodic_trigger o keys).0
      → stage_of x ≡ triggers
  unfolding set_periodic_trigger stage_of
  triggers-step o keys h = ground arith

  pub account-step :
      (o : ConfigObject) (r : Result (List Str))
      → In x (create_service_account w o r).0
      → (l : List Str) × (x ≡ write_account l)
  unfolding create_service_account write_service_account
  account-step o r h = ground arith

  stored-step :
      (r : Result (Bool × GitSecret)) (owner : Option Failure)
      → In x (store_secret w r owner).0
      → (s : GitSecret) × (x ≡ write_secret s)
  unfolding store_secret
  stored-step r owner h = ground arith

  created-step :
      (o : ConfigObject) (r : Result GitSecret)
      → In x (create_git_secret w o r).0
      → (s : GitSecret) × (x ≡ write_secret s)
  unfolding create_git_secret
  created-step o (err e) h = absurd h
  created-step o (ok s) h = stored-step _ w.secret_owner_error h

  with_secret-In :
      (o : ConfigObject) (p : List ConfigEffect × Option Failure)
      → In x (with_secret w o p).1
      → In x p.0
  unfolding with_secret
  with_secret-In o (stored, some e) h = h
  with_secret-In o (stored, none) h = h

  -- The two things that are written.
  accounts-parts :
      (o : ConfigObject) (p : List ConfigEffect × Option Failure)
      → In x (with_accounts w o p).1
      → In x p.0 ⊎ In x (create_git_secret w o w.git_secret).0
  unfolding with_accounts
  accounts-parts o (written, some e) h = inl h
  accounts-parts o (written, none) h = elim (In-append x written _ h) [
    | inl k ↦ inl k
    | inr k ↦ inr (with_secret-In o _ k)
  ]

  deleted-step :
      (hooks : List Hook) → In x (map (λ h. delete_hook h.id) hooks) → stage_of x ≡ deletes
  unfolding stage_of
  deleted-step [] h = absurd h
  deleted-step (k ∷ l) (inl q) = rw q refl
  deleted-step (k ∷ l) (inr h) = deleted-step l h

  listed-step :
      (o : ConfigObject) (r : Result (List Hook)) → In x (hooks_of w o r) → stage_of x ≡ deletes
  unfolding hooks_of
  listed-step o (err e) h = absurd h
  listed-step o (ok l) h = deleted-step _ h

  delete-step :
      (o : ConfigObject) (token : Bool) (r : Result (Unit {0}))
      → In x (delete_hooks w o token r)
      → stage_of x ≡ deletes
  unfolding delete_hooks
  delete-step o true (ok u) h = listed-step o w.list_webhook h
  delete-step o true (err e) h = absurd h
  delete-step o false r h = absurd h

  stop-step :
      (o : ConfigObject) (keys : List Str)
      → In x (stop_periodic_trigger w o keys).0
      → stage_of x ≡ triggers
  unfolding stop_periodic_trigger stage_of
  stop-step o keys h = ground arith

  finalizer-step :
      (b d : Bool) (o : ConfigObject) (keys : List Str) (left : Reconciled)
      → finalizer_step w b d o keys ≡ some left
      → In x left.effects
      → (stage_of x ≡ deletes) ⊎ (stage_of x ≡ triggers)
  unfolding finalizer_step
  finalizer-step false d o keys left e h = absurd (subst (In x) (sym (left_effects e)) h)
  finalizer-step true false o keys left e h = cc e
  finalizer-step true true o keys left e h =
      elim (In-append x (delete_hooks w o (has_token o.config.git) w.git_cli) _
        (subst (In x) (sym (left_effects e)) h)) [
          | inl k ↦ inl (delete-step o (has_token o.config.git) w.git_cli k)
          | inr k ↦ inr (stop-step o keys k)
        ]

  -- A reconciliation that ends with the finalizer registers and writes nothing.
  pub exit-step :
      (o : ConfigObject) (keys : List Str) (left : Reconciled)
      → handle_finalizer w o keys ≡ some left
      → In x left.effects
      → (stage_of x ≡ deletes) ⊎ (stage_of x ≡ triggers)
  unfolding handle_finalizer
  exit-step o keys left e h =
      finalizer-step (has_finalizer o.finalizers) (is_set o.deletion_timestamp) o keys left e h

  live-parts :
      (o : ConfigObject) (keys : List Str)
      → In x (reconcile_live w o keys).0.effects
      → In x
          (set_webhook_registered w
            (with_secrets w o)
            (not_registered (with_secrets w o).registered)).1
        ⊎ In x (set_periodic_trigger (prepared w o) keys).0
        ⊎ In x
            (with_accounts w (prepared w o) (create_service_account w (prepared w o) w.account)).1
  unfolding reconcile_live
  live-parts o keys h = elim (In-append x _ _ h) [
    | inl k ↦ inl k
    | inr k ↦ elim (In-append x _ _ k) [ inl m ↦ inr (inl m) | inr m ↦ inr (inr m) ]
  ]

  written-step :
      (o : ConfigObject)
      → In x (with_accounts w o (create_service_account w o w.account)).1
      → stage_of x ≡ writes
  unfolding stage_of
  written-step o h = elim (accounts-parts o (create_service_account w o w.account) h) [
    | inl k ↦ let (l, q) = account-step o w.account k in rw q refl
    | inr k ↦ let (s, q) = created-step o w.git_secret k in rw q refl
  ]

  pub live-registers :
      (o : ConfigObject) (keys : List Str)
      → stage_of x ≡ registers
      → In x (reconcile_live w o keys).0.effects
      → In x
          (set_webhook_registered w
            (with_secrets w o)
            (not_registered (with_secrets w o).registered)).1
  live-registers o keys r h = elim (live-parts o keys h) [
    | inl k ↦ k
    | inr (inl k) ↦ cc (triggers-step (prepared w o) keys k)
    | inr (inr k) ↦ cc (written-step (prepared w o) k)
  ]

  pub live-writes :
      (o : ConfigObject) (keys : List Str)
      → stage_of x ≡ writes
      → In x (reconcile_live w o keys).0.effects
      → In x (create_service_account w (prepared w o) w.account).0
        ⊎ In x (create_git_secret w (prepared w o) w.git_secret).0
  live-writes o keys r h = elim (live-parts o keys h) [
    | inl k ↦ cc (hooks-step (with_secrets w o) (not_registered (with_secrets w o).registered) k)
    | inr (inl k) ↦ cc (triggers-step (prepared w o) keys k)
    | inr (inr k) ↦ accounts-parts (prepared w o) _ k
  ]
