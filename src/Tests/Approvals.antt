-- ===== src/Tests/Approvals.antt =====
-- An approval of a user and of a service account, which is approved later (controllers/approval_controller.go).
use cicd_operator.Base.{
  nat_eq, In, str, str_eq, refl, ◌↔◌, ◌⊎◌, inl, inr, true, false, none, some, List, [], ◌∷◌,
}
use cicd_operator.ApprovalController.{
  awaiting, approved, request_mail, Approval, Outside, sent, reconcile_approval, by_result,
  with_role, with_binding, bound, mailed, request_part, try_mail, send_mail, request_condition,
  default_condition, upgrade_condition, not_processed, awaits_request,
}
use cicd_operator.Api.Tasks.{ApprovalUser}
use cicd_operator.RoleBinding.{Subject, add_subjects}
use cicd_operator.RoleBinding.Subjects.{Named, In-add_subjects}
use cicd_operator.ApprovalController.MailOnce.{mail_once}

abbrev users : List ApprovalUser
users =
    record { name = str "kim"; email = str "kim@ci" }
    ∷ record { name = str "system:serviceaccount:ci:bot"; email = [] }
    ∷ []

abbrev requested : Approval
requested = record {
  name = str "deploy";
  namespace = str "ci";
  skip_send_mail = false;
  pipeline_run = str "run";
  integration_job = str "job";
  job_name = str "ask";
  message = [];
  sender = none;
  link = [];
  users = users;
  status = record {
    result = awaiting;
    approver = [];
    reason = [];
    decision_time = none;
    request_cond = none;
    result_cond = none;
  };
}

abbrev outside : Outside
outside = record {
  role_error = none;
  binding = inr [];
  binding_error = none;
  mail_error = λ m. none;
  enable_mail = true;
  send_error = λ m. some (str "refused");
}

request_sent : In (sent request_mail) (reconcile_approval outside requested).1
unfolding reconcile_approval by_result with_role with_binding bound mailed request_part try_mail
    send_mail request_condition default_condition upgrade_condition not_processed awaits_request
request_sent = inr (inl refl)

abbrev decided : Approval
decided = record requested {
  status = record (reconcile_approval outside requested).0 { result = approved };
}

mail_once_example : ¬ In (sent request_mail) (reconcile_approval outside decided).1
mail_once_example = mail_once outside outside requested decided request_mail request_sent refl refl

abbrev bot : Subject
bot = record { api_group = []; kind = str "ServiceAccount"; name = str "bot"; namespace = str "ci" }

In-add_subjects_example :
    In bot (add_subjects (str "ci") users []) ↔ (In bot [] ⊎ Named (str "ci") users bot)
In-add_subjects_example = In-add_subjects (str "ci") users [] bot
