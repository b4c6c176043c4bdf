-- ===== src/GitClient.antt =====
-- internal/utils and pkg/git/git.go: what the plugins ask of a git server and of the cluster. The server's answers are
-- a parameter; the requests that change something are recorded, latest first. A comment is named by the
-- function that writes its text.
pub mod Only
pub mod Results
use cicd_operator.Base.{
  if◌then◌else◌, nat_eq, Str, str, str_eq, contains_text, pos, negsuc, ℕ, zero, suc, ◌≡◌, refl, ◌≢◌,
  ◌⊎◌, inl, inr, Bool, not, Option, none, some, List, [], ◌∷◌, arith,
}
use cicd_operator.Api.{IntegrationJob, JobState, JobStatus}
use cicd_operator.Git.{User, IssueComment, CommitStatus}

-- An error; `panicked` is a nil pointer that is followed.
pub data Failure : Type 0 where
  unauthorized : Str → Str → Failure
  failed : Str → Failure
  panicked : Failure

pub data Result {ℓ} (A : Type ℓ) : Type ℓ where
  ok : A → Result A
  err : Failure → Result A

pub data CommentText : Type 0 where
  trigger_unauthorized : Str → Str → CommentText
  approve_unauthorized approved_by canceled_by : Str → CommentText
  approve_help hold_help : CommentText

pub data Request : Type 0 where
  set_label delete_label : ℕ → Str → Request
  register_comment : ℕ → CommentText → Request
  create_job : IntegrationJob → Request
  set_commit_status : Str → CommitStatus → Request
  emit_event : JobState → Str → Request
  patch_finalizers : List Str → Request
  patch_status : JobStatus → Request
  notify_scheduler : IntegrationJob → Request

-- `client` is what `GetGitCli` returns, `refuses` an error that a request meets.
pub record Server : Type 0 where
  pub client : Result (Unit {0})
  pub refuses : Request → Option Str
  pub can_user_write_to_repo : User → Result Bool
  pub list_labels : ℕ → Result (List Str)
  pub list_comments : ℕ → Result (List IssueComment)

-- An action: its result, and the requests made so far.
abbrev pub Act {ℓ} : Type ℓ → Type ℓ
Act A = List Request → Result A × List Request

infixl 5 ◌>>=◌ ◌>>◌
abbrev pub ◌>>=◌ {ℓ κ} : {A : Type ℓ} {B : Type κ} → Act A → (A → Act B) → Act B
◌>>=◌ m f log = let (r, log') = m log in elim r [ ok a ↦ f a log' | err e ↦ (err e, log') ]

abbrev pub ◌>>◌ {ℓ} : {B : Type ℓ} → Act (Unit {0}) → Act B → Act B
m >> k = m >>= λ _. k

abbrev pub finish : Act (Unit {0})
finish log = (ok tt, log)

abbrev pub throw {ℓ} : {A : Type ℓ} → Failure → Act A
throw e log = (err e, log)

-- An answer that changes nothing.
abbrev pub ask {ℓ} : {A : Type ℓ} → Result A → Act A
ask r log = (r, log)

abbrev pub answer : Option Str → Result (Unit {0})
answer none = ok tt
answer (some e) = err (failed e)

abbrev pub send : Server → Request → Act (Unit {0})
send server r log = (answer (server.refuses r), r ∷ log)

-- A request whose error, if it has one, is only logged.
abbrev pub tell : Request → Act (Unit {0})
tell r log = (ok tt, r ∷ log)

-- A request that is made when the action ends, also by an error.
abbrev pub deferred : Act (Unit {0}) → Request → Act (Unit {0})
deferred m r log = ((m log).0, r ∷ (m log).1)

-- `DeleteLabel`, where an error that says so is no error.
abbrev pub forgive : Option Str → Result (Unit {0})
forgive none = ok tt
forgive (some e) = if contains_text e (str "Label does not exist") then ok tt else err (failed e)

abbrev pub send_delete : Server → ℕ → Str → Act (Unit {0})
send_delete server id label log =
    (forgive (server.refuses (delete_label id label)), delete_label id label ∷ log)

pub Result-cases {ℓ} :
    {A : Type ℓ} (r : Result A) → ((a : A) × (r ≡ ok a)) ⊎ ((e : Failure) × (r ≡ err e))
Result-cases (ok a) = inl (a, refl)
Result-cases (err e) = inr (e, refl)

-- The result where an action fails is not a success.
pub err≢ok {ℓ} : {A : Type ℓ} (a : A) (e : Failure) → Result.err e ≢ ok a
err≢ok a e = ground arith
