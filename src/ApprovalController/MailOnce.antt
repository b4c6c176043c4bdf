-- ===== src/ApprovalController/MailOnce.antt =====
-- controllers/approval_controller.go: the mails of an approval under repeated reconciliation.
use cicd_operator.Base.{
  if◌then◌else◌, Option-cases, nat_eq, In, In-append, Str, str, str_eq, ◌≡◌, refl, sym, ◌∙◌, ◌⊎◌,
  inl, inr, Bool, true, false, not, ◌&&◌, Option, none, some, List, [], ◌∷◌, arith,
}
use mathlib.Core.Path.{subst}
use cicd_operator.RoleBinding.{Subject, add_subjects}
use cicd_operator.ApprovalController.{
  ApprovalResult, no_result, awaiting, approved, rejected, errored, false_status, true_status,
  MailCondition, Mail, request_mail, result_mail, ApprovalStatus, Approval, Outside, Effect,
  put_binding, sent, default_condition, upgrade_condition, request_condition, result_condition,
  awaits_request, awaits_result, send_mail, try_mail, request_part, result_part, mailed, bound,
  with_binding, with_role, by_result, status_with, reconcile_approval, is_decided, is_some,
}

-- The mail's condition says that it was tried.
unfoldable Tried : Mail → ApprovalStatus → Type 0
Tried request_mail s =
    (c : MailCondition) × (s.request_cond ≡ some c) × (awaits_request c.status ≡ false)
Tried result_mail s =
    (c : MailCondition) × (s.result_cond ≡ some c) × (awaits_result c.status ≡ false)

sent_inj : {k m : Mail} → sent k ≡ sent m → k ≡ m
sent_inj e = ground (arith, e)

-- What an attempt leaves: a condition that awaits no mail, and at most this one mail.
abbrev Settles : Mail → MailCondition × List Effect → Type 0
Settles m r =
    (awaits_request (r.0).status ≡ false)
    × (awaits_result (r.0).status ≡ false)
    × ((k : Mail) → In (sent k) r.1 → k ≡ m)

alone : (m k : Mail) → In (sent k) (sent m ∷ []) → k ≡ m
alone m k (inl e) = sent_inj e
alone m k (inr x) = absurd x

module _ (o : Outside) where
  send_mail-Settles : (m : Mail) → Settles m (send_mail o m)
  unfolding send_mail awaits_request awaits_result
  send_mail-Settles m =
      elim o.enable_mail
        as (λ b. Settles m (if not b then disabled else outcome (o.send_error m))) [
          | false ↦ (refl, refl, λ k h. absurd h)
          | true ↦ by_error (o.send_error m)
        ]
    where
      disabled : MailCondition × List Effect
      disabled = (
        record {
          status = false_status;
          reason = str "EmailDisabled";
          message = str "Email feature is disabled";
        },
        [],
      )

      outcome : Option Str → MailCondition × List Effect
      outcome (some e) = (
        record { status = false_status; reason = str "ErrorSendingMail"; message = e },
        sent m ∷ [],
      )
      outcome none = (
        record { status = true_status; reason = str "EmailSent"; message = str "Email is sent" },
        sent m ∷ [],
      )

      by_error : (e : Option Str) → Settles m (outcome e)
      by_error (some e) = (refl, refl, alone m)
      by_error none = (refl, refl, alone m)

  try_mail-Settles : (m : Mail) → Settles m (try_mail o m)
  unfolding try_mail awaits_request awaits_result
  try_mail-Settles m = elim (Option-cases (o.mail_error m)) [
    | inl n ↦ subst (Settles m) (sent_as n) (send_mail-Settles m)
    | inr (e, q) ↦ subst (Settles m) (failed_as e q) (refl, refl, λ k h. absurd h)
  ]
    where
      sent_as : o.mail_error m ≡ none → send_mail o m ≡ try_mail o m
      sent_as n = ground (arith, n)

      failed_as :
          (e : Str)
          → o.mail_error m ≡ some e
          → (record { status = false_status; reason = str "EmailGenerateError"; message = e }, [])
            ≡ try_mail o m
      failed_as e q = ground (arith, q)

  part :
      {A : Type 0} (P : A → Type 0) (b : Bool) (x y : A)
      → (b ≡ true → P x)
      → (b ≡ false → P y)
      → P (if b then x else y)
  part P true x y h g = h refl
  part P false x y h g = g refl

  -- The mail's condition awaits it.
  Waits : Mail → MailCondition → MailCondition → Type 0
  Waits request_mail c d = awaits_request c.status ≡ true
  Waits result_mail c d = awaits_result d.status ≡ true

  -- A mail that is sent was awaited, and has been tried afterwards.
  Keeps : Mail → MailCondition → MailCondition → ApprovalStatus × List Effect → Type 0
  Keeps m c d r = In (sent m) r.1 → Tried m r.0 × Waits m c d

  request_sent :
      (a : Approval) (c : MailCondition) (k : Mail)
      → In (sent k) (request_part o a c).1
      → (k ≡ request_mail)
        × (awaits_request (request_part o a c).0.status ≡ false)
        × (awaits_request c.status ≡ true)
  unfolding request_part
  request_sent a c k =
      let (f, _, g) = try_mail-Settles request_mail in
      part
        (λ r.
          In (sent k) r.1
          → (k ≡ request_mail)
            × (awaits_request (r.0).status ≡ false)
            × (awaits_request c.status ≡ true))
        (not a.skip_send_mail && awaits_request c.status) (try_mail o request_mail) (c, [])
        (λ b h. (g k h, f, ground (arith, b))) (λ _ h. absurd h)

  result_sent :
      (a : Approval) (c : MailCondition) (k : Mail)
      → In (sent k) (result_part o a c).1
      → (k ≡ result_mail)
        × (awaits_result (result_part o a c).0.status ≡ false)
        × (awaits_result c.status ≡ true)
  unfolding result_part
  result_sent a c k =
      let (_, f, g) = try_mail-Settles result_mail in
      part
        (λ r.
          In (sent k) r.1
          → (k ≡ result_mail)
            × (awaits_result (r.0).status ≡ false)
            × (awaits_result c.status ≡ true))
        (not a.skip_send_mail
          && (is_decided a.status.result && (is_some a.sender && awaits_result c.status)))
        (try_mail o result_mail) (c, []) (λ b h. (g k h, f, ground (arith, b))) (λ _ h. absurd h)

  mailed-Keeps :
      (a : Approval) (c d : MailCondition) (subjects : List Subject) (m : Mail)
      → Keeps m c d (mailed o a subjects (request_part o a c) (result_part o a d))
  unfolding mailed status_with Tried Keeps Waits
  mailed-Keeps a c d subjects m (inl e) = ground (arith, e)
  mailed-Keeps a c d subjects m (inr h) =
      elim (In-append (sent m) (request_part o a c).1 (result_part o a d).1 h) [
        | inl k ↦
            let (e, f, w) = request_sent a c m k in
            subst
              (λ z.
                Tried z (mailed o a subjects (request_part o a c) (result_part o a d)).0
                × Waits z c d)
              (sym e) (((request_part o a c).0, refl, f), w)
        | inr k ↦
            let (e, f, w) = result_sent a d m k in
            subst
              (λ z.
                Tried z (mailed o a subjects (request_part o a c) (result_part o a d)).0
                × Waits z c d)
              (sym e) (((result_part o a d).0, refl, f), w)
      ]

  nothing_sent : (m : Mail) (subjects : List Subject) → In (sent m) (put_binding subjects ∷ []) → ⊥
  nothing_sent m subjects (inl e) = ground (arith, e)
  nothing_sent m subjects (inr x) = x

  bound-Keeps :
      (a : Approval) (c d : MailCondition) (m : Mail) (subjects : List Subject) (e : Option Str)
      → Keeps m c d (bound o a c d subjects e)
  unfolding bound Keeps
  bound-Keeps a c d m subjects (some e) h = absurd (nothing_sent m subjects h)
  bound-Keeps a c d m subjects none h = mailed-Keeps a c d subjects m h

  with_binding-Keeps :
      (a : Approval) (c d : MailCondition) (m : Mail) (b : Str ⊎ List Subject)
      → Keeps m c d (with_binding o a c d b)
  unfolding with_binding Keeps
  with_binding-Keeps a c d m (inl e) h = absurd h
  with_binding-Keeps a c d m (inr subjects) h =
      bound-Keeps a c d m (add_subjects a.namespace a.users subjects) o.binding_error h

  with_role-Keeps :
      (a : Approval) (c d : MailCondition) (m : Mail) (e : Option Str)
      → Keeps m c d (with_role o a c d e)
  unfolding with_role Keeps
  with_role-Keeps a c d m (some e) h = absurd h
  with_role-Keeps a c d m none h = with_binding-Keeps a c d m o.binding h

  by_result-Keeps :
      (result : ApprovalResult) (a : Approval) (c d : MailCondition) (m : Mail)
      → Keeps m c d (by_result o result a c d)
  unfolding by_result with_role with_binding bound Keeps
  by_result-Keeps no_result a c d m h = absurd h
  by_result-Keeps awaiting a c d m h = with_role-Keeps a c d m o.role_error h
  by_result-Keeps approved a c d m h = with_role-Keeps a c d m o.role_error h
  by_result-Keeps rejected a c d m h = with_role-Keeps a c d m o.role_error h
  by_result-Keeps errored a c d m h = with_role-Keeps a c d m o.role_error h

-- A mail that was tried is awaited no more, by the conditions that a reconciliation starts with.
Tried-Waits :
    (o : Outside) (m : Mail) (s : ApprovalStatus)
    → Tried m s
    → Waits o m (request_condition s) (result_condition s)
    → ⊥
unfolding Tried Waits request_condition result_condition default_condition upgrade_condition
Tried-Waits o request_mail s (c, e, f) w = ground (arith, e, f, w)
Tried-Waits o result_mail s (c, e, f) w = ground (arith, e, f, w)

reconcile-Keeps :
    (o : Outside) (a : Approval) (m : Mail)
    → Keeps o m (request_condition a.status) (result_condition a.status) (reconcile_approval o a)
unfolding reconcile_approval
reconcile-Keeps o a m =
    by_result-Keeps o a.status.result a (request_condition a.status) (result_condition a.status) m

same-Tried :
    (m : Mail) (s t : ApprovalStatus)
    → t.request_cond ≡ s.request_cond
    → t.result_cond ≡ s.result_cond
    → Tried m s
    → Tried m t
unfolding Tried
same-Tried request_mail s t p q (c, e, f) = (c, p ∙ e, f)
same-Tried result_mail s t p q (c, e, f) = (c, q ∙ e, f)

-- A mail that one reconciliation hands to the mail sender, whether or not that fails, is not sent again by a
-- later one of an approval that has the conditions which the first one left, whatever else has
-- changed: its result, its users, or what the cluster answers.
pub mail_once :
    (o o' : Outside) (a b : Approval) (m : Mail)
    → In (sent m) (reconcile_approval o a).1
    → b.status.request_cond ≡ (reconcile_approval o a).0.request_cond
    → b.status.result_cond ≡ (reconcile_approval o a).0.result_cond
    → ¬ In (sent m) (reconcile_approval o' b).1
unfolding Keeps
mail_once o o' a b m h p q again =
    let first = reconcile-Keeps o a m h in
    let second = reconcile-Keeps o' b m again in
    Tried-Waits o' m b.status (same-Tried m (reconcile_approval o a).0 b.status p q first.0)
      second.1
