-- ===== src/ConfigController/Stored.antt =====
-- controllers/integrationconfig_controller.go: when the git secret is written.
use cicd_operator.Base.{
  In, ◌==◌, ==_iff, nat_eq, str_eq, str_beq, Map, put, get-put, Str, str, ◌≡◌, refl, sym, ◌∙◌, ap,
  inl, inr, Bool, true, false, Option, none, some, List, arith,
}
use mathlib.Core.Path.{subst}
use cicd_operator.Api.{IntegrationConfig}
use cicd_operator.GitClient.{Failure, Result, ok, err}
use cicd_operator.GitClient.Results.{>>=-eq-ok, ok-injective}
use cicd_operator.PipelineManager.Envs.{Url}
use cicd_operator.ConfigController.GitSecret.{
  GitSecret, get_git_host, get_token, host_key, user_name, basic_auth, entries_of, text_at,
  lacks_host, lacks_token, needs_patch, with_token, update_git_secret,
}
use cicd_operator.ConfigController.State.{
  ConfigObject, write_secret, ConfigWorld, bump_v050, set_secret_string, set_ready_cond,
}
use cicd_operator.ConfigController.Accounts.{store_secret, create_git_secret}
use cicd_operator.ConfigController.Reconcile.{
  Reconciled, after_finalizer, handle_finalizer, reconcile_config,
}
use cicd_operator.ConfigController.Effects.{
  stage_of, exit-step, prepared, live-writes, account-step,
}

text_at-put_same : (k v : Str) (m : Map Str Str) → text_at k (put k v m) ≡ v
unfolding text_at
text_at-put_same k v m = rw (text_at, get-put k k v m, (==_iff k k).1 refl) refl

text_at-put_other :
    (k j v : Str) (m : Map Str Str) → (k == j) ≡ false → text_at j (put k v m) ≡ text_at j m
unfolding text_at
text_at-put_other k j v m h = rw (text_at, get-put k j v m, h) refl

other_key : (str "password" == str "username") ≡ false
unfolding str_beq
other_key = refl

-- A secret that was brought up to date needs no more.
needs_patch-with_token :
    (host token : Str) (s : GitSecret) → needs_patch host token (with_token host token s) ≡ false
unfolding needs_patch with_token lacks_host lacks_token
needs_patch-with_token host token s =
    rw
      (
        text_at-put_same host_key host (entries_of s.annotations),
        text_at-put_same (str "password") token
            (put (str "username") user_name (entries_of s.contents)),
        text_at-put_other (str "password") (str "username") token
            (put (str "username") user_name (entries_of s.contents)) other_key,
        text_at-put_same (str "username") user_name (entries_of s.contents),
        (==_iff host host).1 refl,
        (==_iff token token).1 refl,
        (==_iff user_name user_name).1 refl,
        (==_iff basic_auth basic_auth).1 refl,
      )
      refl

-- A secret that is written was brought up to date, and was not so before.
record Brought (host token : Result Str) (old new : GitSecret) : Type 0 where
  at_host : Str
  by_token : Str
  host_eq : host ≡ ok at_host
  token_eq : token ≡ ok by_token
  needed : needs_patch at_host by_token old ≡ true
  brought : new ≡ with_token at_host by_token old

pair_eq : {p q : Bool × GitSecret} → Result.ok p ≡ ok q → (p.0 ≡ q.0) × (p.1 ≡ q.1)
pair_eq e = (ap (λ r. r.0) (ok-injective e), ap (λ r. r.1) (ok-injective e))

update-Brought :
    (parse_url : Str → Result Url) (get_secret : Str → Str → Result (Map Str Str))
    (c : IntegrationConfig) (old new : GitSecret)
    → update_git_secret parse_url get_secret c old ≡ ok (true, new)
    → Brought (get_git_host parse_url c.git) (get_token get_secret c.namespace c.git.token) old new
unfolding update_git_secret
update-Brought parse_url get_secret c old new e =
    let (host, he, e') = >>=-eq-ok (get_git_host parse_url c.git) _ e in
    let (token, te, e'') = >>=-eq-ok (get_token get_secret c.namespace c.git.token) _ e' in
    let (n, b) = pair_eq e'' in
    record {
      at_host = host;
      by_token = token;
      host_eq = he;
      token_eq = te;
      needed = n;
      brought = sym b;
    }

prepared-config : (w : ConfigWorld) (o : ConfigObject) → (prepared w o).config ≡ o.config
unfolding set_ready_cond set_secret_string
prepared-config w o = ground arith

bump-config : (o : ConfigObject) → (bump_v050 o).config ≡ o.config
unfolding bump_v050
bump-config o = refl

module _ (w : ConfigWorld) (new : GitSecret) where
  abbrev BroughtFor : IntegrationConfig → Type 0
  BroughtFor c =
      (old : GitSecret) × (w.git_secret ≡ ok old)
      × Brought (get_git_host w.parse_url c.git) (get_token w.get_secret c.namespace c.git.token)
          old new

  store-Brought :
      (r : Result (Bool × GitSecret)) (owner : Option Failure)
      → In (write_secret new) (store_secret w r owner).0
      → r ≡ ok (true, new)
  unfolding store_secret
  store-Brought r owner h = ground arith

  create-Brought :
      (o : ConfigObject) (r : Result GitSecret)
      → w.git_secret ≡ r
      → In (write_secret new) (create_git_secret w o r).0
      → BroughtFor o.config
  unfolding create_git_secret
  create-Brought o (err e) q h = absurd h
  create-Brought o (ok old) q h = (
    old,
    q,
    update-Brought w.parse_url w.get_secret o.config old new
        (store-Brought _ w.secret_owner_error h),
  )

  after-Brought :
      (f : Option Reconciled) (o : ConfigObject) (keys : List Str)
      → handle_finalizer w o keys ≡ f
      → In (write_secret new) (after_finalizer w f o keys).0.effects
      → BroughtFor o.config
  unfolding after_finalizer stage_of
  after-Brought (some left) o keys e h = elim (exit-step w (write_secret new) o keys left e h) [
    | inl q ↦ cc q
    | inr q ↦ cc q
  ]
  after-Brought none o keys e h = elim (live-writes w (write_secret new) o keys refl h) [
    | inl k ↦
        let (l, q) = account-step w (write_secret new) (prepared w o) w.account k in
        absurd (ground (arith, q))
    | inr k ↦
        subst BroughtFor (prepared-config w o) (create-Brought (prepared w o) w.git_secret refl k)
  ]

  secret-Brought :
      (o : ConfigObject) (keys : List Str)
      → In (write_secret new) (reconcile_config w o keys).0.effects
      → BroughtFor o.config
  unfolding reconcile_config
  secret-Brought o keys h =
      subst BroughtFor (bump-config o)
        (after-Brought (handle_finalizer w (bump_v050 o) keys) (bump_v050 o) keys refl h)

Brought-twice :
    (host token : Result Str) (old s t : GitSecret)
    → Brought host token old s
    → ¬ Brought host token s t
Brought-twice host token old s t b c =
    let h = ok-injective (sym b.host_eq ∙ c.host_eq) in
    let k = ok-injective (sym b.token_eq ∙ c.token_eq) in
    cc (needs_patch-with_token b.at_host b.by_token old, b.brought, h, k, c.needed)

-- A git secret that a reconciliation writes is not written again by a later one that finds it as it was written, while
-- the git host and the token are the same, whatever else has changed.
pub secret_written_once :
    (w w' : ConfigWorld) (o o' : ConfigObject) (keys keys' : List Str) (s t : GitSecret)
    → In (write_secret s) (reconcile_config w o keys).0.effects
    → w'.git_secret ≡ ok s
    → get_git_host w'.parse_url o'.config.git ≡ get_git_host w.parse_url o.config.git
    → get_token w'.get_secret o'.config.namespace o'.config.git.token
      ≡ get_token w.get_secret o.config.namespace o.config.git.token
    → ¬ In (write_secret t) (reconcile_config w' o' keys').0.effects
secret_written_once w w' o o' keys keys' s t h found host token k =
    let (old, q, b) = secret-Brought w s o keys h in
    let (old', q', c) = secret-Brought w' t o' keys' k in
    Brought-twice _ _ old s t b (
      subst (λ r. Brought r (get_token w.get_secret o.config.namespace o.config.git.token) s t) host
        (subst (λ r. Brought (get_git_host w'.parse_url o'.config.git) r s t) token
          (subst
            (λ r.
              Brought (get_git_host w'.parse_url o'.config.git)
                (get_token w'.get_secret o'.config.namespace o'.config.git.token) r t)
            (ok-injective (sym q' ∙ found)) c)))
