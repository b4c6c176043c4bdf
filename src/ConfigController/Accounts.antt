-- ===== src/ConfigController/Accounts.antt =====
-- controllers/integrationconfig_controller.go: createServiceAccount and createGitSecret.
use cicd_operator.Base.{
  if◌then◌else◌, anyb, ◌==◌, nat_eq, Str, str, str_eq, Bool, true, false, not, ◌||◌, Option, none,
  some, List, [], ◌∷◌, ◌++◌,
}
use cicd_operator.GitClient.{Failure, Result, ok, err}
use cicd_operator.ConfigController.GitSecret.{GitSecret, update_git_secret}
use cicd_operator.ConfigController.State.{
  ConfigObject, ConfigEffect, write_account, write_secret, ConfigWorld, not_ready,
}

-- The secrets that the account has in the end, and whether they have changed.
unfoldable pub add_secrets : List Str → List Str → List Str × Bool
add_secrets [] have = (have, false)
add_secrets (s ∷ l) have =
    let skip = s == [] || anyb (λ t. t == s) have in
    let rest = add_secrets l (if skip then have else have ++ s ∷ []) in (rest.0, not skip || rest.1)

module _ (w : ConfigWorld) where
  unfoldable pub write_service_account :
      List Str × Bool → Option Failure → List ConfigEffect × Option Failure
  write_service_account (secrets, false) o = ([], none)
  write_service_account (secrets, true) (some e) = ([], some e)
  write_service_account (secrets, true) none = (write_account secrets ∷ [], w.write_error)

  -- `createServiceAccount`
  unfoldable pub create_service_account :
      ConfigObject → Result (List Str) → List ConfigEffect × Option Failure
  unfolding add_secrets write_service_account
  create_service_account o (err e) = ([], some e)
  create_service_account o (ok have) =
      write_service_account (add_secrets (o.config.name ∷ o.spec_secrets) have) w.owner_error

  -- `CreateOrPatchObject`, if there is something to write.
  unfoldable pub store_secret :
      Result (Bool × GitSecret) → Option Failure → List ConfigEffect × Option Failure
  store_secret (err e) owner = ([], some e)
  store_secret (ok (false, s)) owner = ([], none)
  store_secret (ok (true, s)) (some e) = ([], some e)
  store_secret (ok (true, s)) none = (write_secret s ∷ [], w.secret_write_error)

  -- `createGitSecret`
  unfoldable pub create_git_secret :
      ConfigObject → Result GitSecret → List ConfigEffect × Option Failure
  unfolding store_secret update_git_secret
  create_git_secret o (err e) = ([], some e)
  create_git_secret o (ok s) =
      store_secret (update_git_secret w.parse_url w.get_secret o.config s) w.secret_owner_error

  -- The object with the error of the git secret, the requests, and whether there was no error.
  unfoldable pub with_secret :
      ConfigObject → List ConfigEffect × Option Failure → ConfigObject × List ConfigEffect × Bool
  unfolding not_ready
  with_secret o (stored, some e) = (not_ready (str "CannotCreateSecret") e o, stored, false)
  with_secret o (stored, none) = (o, stored, true)

  unfoldable pub with_accounts :
      ConfigObject → List ConfigEffect × Option Failure → ConfigObject × List ConfigEffect × Bool
  unfolding not_ready with_secret create_git_secret
  with_accounts o (written, some e) = (not_ready (str "CannotCreateAccount") e o, written, false)
  with_accounts o (written, none) =
      let (settled, stored, done) = with_secret o (create_git_secret o w.git_secret) in
      (settled, written ++ stored, done)
