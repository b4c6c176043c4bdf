-- ===== src/ApprovalApi/Decided.antt =====
-- pkg/apiserver/apis/v1/approvals/decision.go and controllers/approval_controller.go: what becomes of an approval by
-- requests and reconciliations in any order.
use cicd_operator.Base.{
  ◌==◌, nat_eq, In, Str, str_eq, ◌≡◌, refl, ◌≢◌, ℕ, ◌⊎◌, inl, inr, Bool, true, false, ◌&&◌, Option,
  none, some, List, [], ◌∷◌, arith,
}
use mathlib.Core.Path.{subst}
use cicd_operator.Api.Tasks.{ApprovalUser}
use cicd_operator.ApprovalController.{
  ApprovalResult, no_result, awaiting, approved, rejected, errored, ApprovalStatus, Approval,
  Outside, by_result, with_role, with_binding, bound, mailed, status_with, reconcile_approval,
}
use cicd_operator.GitClient.{Result, ok, err}
use cicd_operator.ApprovalApi.{
  DecisionRequest, is_approver, decide, with_body, with_path, update_decision, approve_handler,
  reject_handler,
}

pub data Happening : Type 0 where
  approve reject : ℕ → DecisionRequest → Happening
  reconciled : Outside → Happening

abbrev pub same_text : Option Str → Str → Bool
same_text none s = false
same_text (some t) s = t == s

-- Whether the path names the approval; another approval is another object.
abbrev pub names_approval : DecisionRequest → Approval → Bool
names_approval req a = same_text req.name a.name && same_text req.namespace a.namespace

abbrev pub patch_if : Bool → Approval → Option ApprovalStatus → Approval
patch_if false a s = a
patch_if true a none = a
patch_if true a (some s) = record a { status = s }

-- What happens to an approval that the cluster has: its status is patched.
abbrev pub happen : Happening → Approval → Approval
happen (approve now req) a =
    patch_if (names_approval req a) a (approve_handler (λ n m. some a) now req).patched
happen (reject now req) a =
    patch_if (names_approval req a) a (reject_handler (λ n m. some a) now req).patched
happen (reconciled o) a = record a { status = (reconcile_approval o a).0 }

abbrev pub history : List Happening → Approval → Approval
history [] a = a
history (h ∷ hs) a = history hs (happen h a)

-- A request to approve by one of the users.
abbrev pub IsConsent : List ApprovalUser → Happening → Type 0
IsConsent users (approve now req) =
    (user : Str) × (req.user ≡ ok user) × (is_approver user users ≡ true)
IsConsent users (reject now req) = ⊥
IsConsent users (reconciled o) = ⊥

patch_if-users :
    (b : Bool) (a : Approval) (s : Option ApprovalStatus) → (patch_if b a s).users ≡ a.users
patch_if-users false a s = refl
patch_if-users true a none = refl
patch_if-users true a (some s) = refl

happen-users : (h : Happening) (a : Approval) → (happen h a).users ≡ a.users
happen-users (approve now req) a = patch_if-users (names_approval req a) a _
happen-users (reject now req) a = patch_if-users (names_approval req a) a _
happen-users (reconciled o) a = refl

patch_if-approved :
    (b : Bool) (a : Approval) (o : Option ApprovalStatus)
    → a.status.result ≢ approved
    → (patch_if b a o).status.result ≡ approved
    → (s : ApprovalStatus) × (o ≡ some s) × (s.result ≡ approved)
patch_if-approved false a o n e = absurd (n e)
patch_if-approved true a none n e = absurd (n e)
patch_if-approved true a (some s) n e = (s, refl, e)

-- A reconciliation approves nothing.
reconcile-approved :
    (o : Outside) (a : Approval)
    → (reconcile_approval o a).0.result ≡ approved
    → a.status.result ≡ approved
unfolding reconcile_approval by_result with_role with_binding bound mailed status_with
reconcile-approved o a e = ground arith

-- A status that a request patches has its decision, and the user is an approver.
abbrev Decides : ApprovalResult → List ApprovalUser → Result Str → ApprovalStatus → Type 0
Decides decision users user s =
    (s.result ≡ decision) × (u : Str) × (user ≡ ok u) × (is_approver u users ≡ true)

module _ (now : ℕ) (decision : ApprovalResult) (a : Approval) where
  decide-Decides :
      (reason user : Str) (s : ApprovalStatus)
      → (decide now decision reason user a).patched ≡ some s
      → Decides decision a.users (ok user) s
  unfolding decide
  decide-Decides reason user s e = (ground arith, user, refl, ground arith)

  with_path-Decides :
      (namespace name : Option Str) (body user : Result Str) (s : ApprovalStatus)
      → (with_path (λ n m. some a) now decision namespace name body user).patched ≡ some s
      → Decides decision a.users user s
  unfolding with_path with_body
  with_path-Decides none name body user s e = cc
  with_path-Decides (some namespace) none body user s e = cc
  with_path-Decides (some namespace) (some name) (err f) user s e = cc
  with_path-Decides (some namespace) (some name) (ok reason) (err f) s e = cc
  with_path-Decides (some namespace) (some name) (ok reason) (ok user) s e =
      decide-Decides reason user s e

happen-IsConsent :
    (h : Happening) (a : Approval)
    → a.status.result ≢ approved
    → (happen h a).status.result ≡ approved
    → IsConsent a.users h
unfolding approve_handler reject_handler update_decision
happen-IsConsent (approve now req) a n e =
    let (s, p, r) = patch_if-approved (names_approval req a) a _ n e in
    let (d, u, q, c) =
      with_path-Decides now approved a req.namespace req.name req.body req.user s p in
    (u, q, c)
happen-IsConsent (reject now req) a n e =
    let (s, p, r) = patch_if-approved (names_approval req a) a _ n e in
    cc (r, (with_path-Decides now rejected a req.namespace req.name req.body req.user s p).0)
happen-IsConsent (reconciled o) a n e = absurd (n (reconcile-approved o a e))

approved-cases : (r : ApprovalResult) → (r ≡ approved) ⊎ (r ≢ approved)
approved-cases no_result = inr (λ e. cc)
approved-cases awaiting = inr (λ e. cc)
approved-cases approved = inl refl
approved-cases rejected = inr (λ e. cc)
approved-cases errored = inr (λ e. cc)

-- An approval that was not approved, and is after any requests and reconciliations in any order, was approved by a
-- request of one of its users.
pub history-IsConsent :
    (hs : List Happening) (a : Approval)
    → a.status.result ≢ approved
    → (history hs a).status.result ≡ approved
    → (h : Happening) × In h hs × IsConsent a.users h
history-IsConsent [] a n e = absurd (n e)
history-IsConsent (h ∷ hs) a n e = elim (approved-cases (happen h a).status.result) [
  | inl now_approved ↦ (h, inl refl, happen-IsConsent h a n now_approved)
  | inr later ↦
      let (g, m, c) = history-IsConsent hs (happen h a) later e in
      (g, inr m, subst (λ users. IsConsent users g) (happen-users h a) c)
]
