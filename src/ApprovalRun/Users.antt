-- ===== src/ApprovalRun/Users.antt =====
-- The approval that the run of a generated approval task asks for: pkg/pipelinemanager/custom_runs.go and
-- controllers/customs/approval_run_controller.go.
use cicd_operator.Base.{
  Bool-cases, ◌==◌, ==_iff, nat_eq, All, Str, str_beq, str_eq, split_on, Without, split_word,
  split_append, ◌≡◌, refl, sym, ap, ◌∙◌, inl, inr, Option, none, some, List, [], ◌∷◌, map, not,
}
use cicd_operator.Tekton.{Param}
use cicd_operator.Api.{Job, Sender, IntegrationJob}
use cicd_operator.Api.Tasks.{ApprovalUser, JobApproval}
use cicd_operator.GitClient.{ok}
use cicd_operator.GitClient.Results.{>>=-eq-ok, ok-injective}
use cicd_operator.PipelineManager.CustomRuns.{
  approver_param, approval_link, deref, approvers_cm, generate_approval_params,
}
use cicd_operator.ApprovalRun.{
  Run, Cluster, value_if, search_param, user_of, parse_approver, pipeline_run_of, all_approvers,
  fresh_status, text_or_empty, new_approval,
}

-- A user whose name and email address have no equals sign.
abbrev pub IsPlain : ApprovalUser → Type 0
IsPlain u = Without b'=' u.name × Without b'=' u.email

user_of-approver_param :
    (u : ApprovalUser) → IsPlain u → user_of (split_on b'=' (approver_param u)) ≡ u
unfolding approver_param user_of
user_of-approver_param u (n, e) = elim (Bool-cases (u.email == [])) [
  | inl none_given ↦ rw none_given (
      rw (split_word b'=' u.name n)
        (ap (λ m. record u { email = m }) (sym ((==_iff u.email []).0 none_given))))
  | inr given ↦
      rw given (rw (split_append b'=' u.name u.email n) (rw (split_word b'=' u.email e) refl))
]

parse_approver-map :
    (l : List ApprovalUser) → All IsPlain l → parse_approver (map approver_param l) ≡ l
unfolding parse_approver
parse_approver-map [] h = refl
parse_approver-map (u ∷ l) h = λ i. user_of-approver_param u h.0 i ∷ parse_approver-map l h.1 i

deref-some : (o : Option Sender) (s : Sender) → deref o ≡ ok s → o ≡ some s
unfolding deref
deref-some none s e = cc
deref-some (some t) s e = ap some (ok-injective e)

module _ (c : Cluster) (job : IntegrationJob) (j : Job) (a : JobApproval) (run : Run) where
  -- If the parameters of an approval task are generated, a run with these parameters asks for an approval of the
  -- users that the job names, where no name or address has an equals sign and the job names no config map; it is
  -- for that job, with the sender of the event, the message and the link.
  pub new_approval-generated :
      (params : List Param)
      → generate_approval_params job j a ≡ ok params
      → run.params ≡ params
      → approvers_cm a.approvers_config_map ≡ []
      → All IsPlain a.approvers
      → (sender : Sender) × (link : Str) × (job.spec.refs.sender ≡ some sender)
        × (approval_link job.spec.refs ≡ ok link)
        × (new_approval c run
            ≡ ok (record {
              name = run.name;
              namespace = run.namespace;
              skip_send_mail = not c.enable_mail;
              pipeline_run = pipeline_run_of run.owners;
              integration_job = job.name;
              job_name = j.name;
              message = a.request_message;
              sender = some (record { name = sender.name; email = sender.email });
              link = link;
              users = a.approvers;
              status = fresh_status;
            }))
  unfolding generate_approval_params new_approval search_param value_if text_or_empty all_approvers
      str_beq
  new_approval-generated params e p m h =
      let (link, el, e1) = >>=-eq-ok (approval_link job.spec.refs) _ e in
      let (sender, es, e2) = >>=-eq-ok (deref job.spec.refs.sender) _ e1 in
      (
        sender,
        link,
        deref-some job.spec.refs.sender sender es,
        el,
        rw (p ∙ sym (ok-injective e2)) (rw m (rw (parse_approver-map a.approvers h) refl)),
      )
