-- ===== src/ConfigController/GitSecret.antt =====
-- controllers/integrationconfig_controller.go: the content of the git secret, with GetGitHost of api/v1/git_types.go and
-- GetToken of api/v1/integrationconfig_types.go. A nil map is none; a missing key of a map reads as the empty string.
use cicd_operator.Base.{
  if◌then◌else◌, ◌==◌, nat_eq, Str, str, str_eq, Map, get, put, Bool, true, not, ◌||◌, Option, none,
  some, [], ◌++◌,
}
use cicd_operator.Api.{IntegrationConfig, GitConfig, GitToken, get_api_url}
use cicd_operator.GitClient.{Result, ok, err, failed}
use cicd_operator.GitClient.Results.{◌>>=◌}
use cicd_operator.PipelineManager.Envs.{Url}

pub record GitSecret : Type 0 where
  pub annotations : Option (Map Str Str)
  pub type : Str
  pub contents : Option (Map Str Str)

-- The hosts of github.com and gitlab.com; that of gitlab.com is the URL of its API.
unfoldable pub public_url : Str → Str
public_url s = if s == str "https://api.github.com" then str "https://github.com" else s

unfoldable pub get_git_host : (Str → Result Url) → GitConfig → Result Str
unfolding public_url get_api_url
get_git_host parse_url c = do
  u ← parse_url (public_url (get_api_url c))
  ok (u.scheme ++ (str "://" ++ u.host))

unfoldable pub secret_value : Option Str → Str → Str → Result Str
secret_value (some token) name key = ok token
secret_value none name key =
    err (failed (str "token secret/key " ++ (name ++ (str "/" ++ (key ++ str " not valid")))))

-- `get_secret` gives the data of a secret.
unfoldable pub get_token : (Str → Str → Result (Map Str Str)) → Str → Option GitToken → Result Str
unfolding secret_value get
get_token get_secret namespace none = ok []
get_token get_secret namespace (some t) = elim t.value_from [
  | none ↦ if t.value == [] then err (failed (str "token is empty")) else ok t.value
  | some (name, key) ↦ do
    contents ← get_secret name namespace
    secret_value (get key contents) name key
]

unfoldable pub text_at : Str → Map Str Str → Str
unfolding get
text_at key m = elim (get key m) [ none ↦ [] | some s ↦ s ]

abbrev pub entries_of : Option (Map Str Str) → Map Str Str
entries_of none = []
entries_of (some m) = m

abbrev pub host_key : Str
host_key = str "tekton.dev/git-0"

abbrev pub user_name : Str
user_name = str "tmax-cicd-bot"

abbrev pub basic_auth : Str
basic_auth = str "kubernetes.io/basic-auth"

unfoldable pub lacks_host : Str → Option (Map Str Str) → Bool
unfolding text_at
lacks_host host none = true
lacks_host host (some m) = not (host == text_at host_key m)

unfoldable pub lacks_token : Str → Option (Map Str Str) → Bool
unfolding text_at
lacks_token token none = true
lacks_token token (some m) =
    not (text_at (str "username") m == user_name) || not (text_at (str "password") m == token)

unfoldable pub needs_patch : Str → Str → GitSecret → Bool
unfolding lacks_host lacks_token
needs_patch host token s =
    lacks_host host s.annotations || not (s.type == basic_auth) || lacks_token token s.contents

unfoldable pub with_token : Str → Str → GitSecret → GitSecret
unfolding put
with_token host token s = record {
  annotations = some (put host_key host (entries_of s.annotations));
  type = basic_auth;
  contents =
      some (put (str "password") token (put (str "username") user_name (entries_of s.contents)));
}

-- `updateGitSecret`: whether the secret is to be written, and the secret.
unfoldable pub update_git_secret :
    (Str → Result Url)
    → (Str → Str → Result (Map Str Str))
    → IntegrationConfig
    → GitSecret
    → Result (Bool × GitSecret)
unfolding get_git_host get_token needs_patch with_token
update_git_secret parse_url get_secret c s = do
  host ← get_git_host parse_url c.git
  token ← get_token get_secret c.namespace c.git.token
  ok (needs_patch host token s, with_token host token s)
