-- ===== src/ApprovalRun/Passes.antt =====
-- What it takes that the run of an approval task passes: pkg/pipelinemanager/custom_runs.go,
-- controllers/customs/approval_run_controller.go and pkg/apiserver/apis/v1/approvals/decision.go.
use cicd_operator.Base.{
  All, In, str, ◌≡◌, refl, sym, ap, ◌∙◌, ◌≢◌, false, inl, inr, Option, none, some, List, [], arith,
}
use mathlib.Core.Path.{subst}
use cicd_operator.Tekton.{string_type, array_type, Param}
use cicd_operator.Api.{Job, IntegrationJob}
use cicd_operator.Api.Tasks.{JobApproval}
use cicd_operator.ApprovalController.{approved, Approval}
use cicd_operator.ApprovalApi.Decided.{Happening, history, IsConsent, history-IsConsent}
use cicd_operator.GitClient.{Failure, ok, err, Result-cases}
use cicd_operator.GitClient.Results.{>>=-eq-ok, ok-injective}
use cicd_operator.PipelineManager.CustomRuns.{approvers_cm, generate_approval_params}
use cicd_operator.ApprovalRun.{
  unknown, holds, RunCondition, Run, FoundApproval, found, not_found, get_error, Cluster,
  search_param, new_approval, default_run_condition, is_over, verdict, failed_run, reflect_approval,
  create_approval, with_approval, started, handle,
}
use cicd_operator.ApprovalRun.Users.{IsPlain, new_approval-generated}

-- A condition that is set and holds.
abbrev pub Holds : Option RunCondition → Type 0
Holds none = ⊥
Holds (some cond) = cond.status ≡ holds

module _ (c : Cluster) where
  new_approval-names :
      (run : Run) (a : Approval)
      → new_approval c run ≡ ok a
      → (a.name ≡ run.name) × (a.namespace ≡ run.namespace)
  unfolding new_approval
  new_approval-names run a e =
      let (p1, q1, e1) = >>=-eq-ok (search_param run.params (str "approvers") array_type) _ e in
      let (p2, q2, e2) =
        >>=-eq-ok (search_param run.params (str "approvers-config-map") string_type) _ e1 in
      let (p3, q3, e3) = >>=-eq-ok (search_param run.params (str "message") string_type) _ e2 in
      let (p4, q4, e4) =
        >>=-eq-ok (search_param run.params (str "integration-job") string_type) _ e3 in
      let (p5, q5, e5) =
        >>=-eq-ok (search_param run.params (str "integration-job-job") string_type) _ e4 in
      let (p6, q6, e6) = >>=-eq-ok (search_param run.params (str "senderName") string_type) _ e5 in
      let (p7, q7, e7) = >>=-eq-ok (search_param run.params (str "link") string_type) _ e6 in
      (
        ap (λ (b : Approval). b.name) (sym (ok-injective e7)),
        ap (λ (b : Approval). b.namespace) (sym (ok-injective e7)),
      )

  started-same :
      (run : Run) → (started c run).name ≡ run.name × ((started c run).namespace ≡ run.namespace)
  unfolding started
  started-same run = ground arith

  -- Before the end the condition is unknown.
  default-unknown :
      (run : Run) → is_over run ≡ false → (default_run_condition run.condition).status ≡ unknown
  unfolding is_over default_run_condition
  default-unknown run h = ground arith

  create-Holds :
      (run : Run) (cond : RunCondition) (a : Approval)
      → cond.status ≡ unknown
      → ¬ Holds (create_approval c run cond a).0.condition
  unfolding create_approval failed_run
  create-Holds run cond a u h = ground arith

  with_approval-Holds :
      (run : Run) (cond : RunCondition) (a : Approval) (f : FoundApproval)
      → cond.status ≡ unknown
      → Holds (with_approval c run cond a f).0.condition
      → (b : Approval) × (f ≡ found b) × (b.status.result ≡ approved)
  unfolding with_approval reflect_approval create_approval failed_run verdict
  with_approval-Holds run cond a (found b) u h = (b, refl, ground arith)
  with_approval-Holds run cond a not_found u h = absurd (create-Holds run cond a u h)
  with_approval-Holds run cond a (get_error e) u h = cc h

  handle-failed :
      (run : Run) (e : Failure)
      → is_over run ≡ false
      → new_approval c (started c run) ≡ err e
      → ¬ Holds (handle c run).0.condition
  unfolding handle failed_run
  handle-failed run e h q = rw h (rw q (λ k. cc k))

  handle-asked :
      (run : Run) (a : Approval)
      → is_over run ≡ false
      → new_approval c (started c run) ≡ ok a
      → handle c run
        ≡ with_approval c
            (started c run)
            (default_run_condition run.condition)
            a
            (c.get_approval a.name a.namespace)
  unfolding handle
  handle-asked run a h q = rw h (rw q refl)

  -- A run that is not over passes only by an approval of its name that the cluster has, and that is approved.
  handle-Holds :
      (run : Run)
      → is_over run ≡ false
      → Holds (handle c run).0.condition
      → (b : Approval) × (c.get_approval run.name run.namespace ≡ found b)
        × (b.status.result ≡ approved)
  handle-Holds run h k = elim (Result-cases (new_approval c (started c run))) [
    | inr (e, q) ↦ absurd (handle-failed run e h q k)
    | inl (a, q) ↦
        let (n, m) = new_approval-names (started c run) a q in
        let (n', m') = started-same run in
        let (b, f, r) =
          with_approval-Holds (started c run) (default_run_condition run.condition) a
            (c.get_approval a.name a.namespace) (default-unknown run h)
            (subst (λ (z : Run × List Approval). Holds z.0.condition) (handle-asked run a h q) k) in
        (b, (λ i. c.get_approval (sym (n ∙ n') i) (sym (m ∙ m') i)) ∙ f, r)
  ]

found-injective : {a b : Approval} → found a ≡ found b → a ≡ b
found-injective h = cc

-- The run of an approval task passes only if one of the users that its job names asked to approve: where the run has
-- the task's parameters, no name or address has an equals sign and the job names no config map, the run is not over,
-- and the cluster's approval of its name is what became of the one that the run asks for by any requests and
-- reconciliations.
pub passes_by_approver :
    (c : Cluster) (job : IntegrationJob) (j : Job) (a : JobApproval) (run : Run)
    (params : List Param) (hs : List Happening) (asked : Approval)
    → generate_approval_params job j a ≡ ok params
    → run.params ≡ params
    → approvers_cm a.approvers_config_map ≡ []
    → All IsPlain a.approvers
    → is_over run ≡ false
    → new_approval c run ≡ ok asked
    → c.get_approval run.name run.namespace ≡ found (history hs asked)
    → Holds (handle c run).0.condition
    → (h : Happening) × In h hs × IsConsent a.approvers h
passes_by_approver c job j a run params hs asked g p m plain over n f k =
    let (b, fb, r) = handle-Holds c run over k in
    let (s, l, es, el, made) = new_approval-generated c job j a run params g p m plain in
    let same = ok-injective (sym made ∙ n) in
    let fresh : asked.status.result ≢ approved =
      λ e. cc (ap (λ (x : Approval). x.status.result) same, e) in
    let (h, i, consent) =
      history-IsConsent hs asked fresh
        (ap (λ (x : Approval). x.status.result) (found-injective (sym f ∙ fb)) ∙ r) in
    (h, i, subst (λ users. IsConsent users h) (sym (ap (λ (x : Approval). x.users) same)) consent)
