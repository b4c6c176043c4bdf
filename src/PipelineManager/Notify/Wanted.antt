-- ===== src/PipelineManager/Notify/Wanted.antt =====
-- pkg/pipelinemanager/notification.go: which runs are created.
use cicd_operator.Base.{
  Bool-cases, ◌==◌, ==_iff, nat_eq, In, In-append, Str, str_eq, ◌≡◌, refl, sym, ap, ◌∙◌, ◌⊎◌, inl,
  inr, Option, none, some, List, [], ◌∷◌,
}
use mathlib.Core.Path.{subst}
use cicd_operator.Api.{Job, RunStatus, IntegrationJob, ConfigJobs}
use cicd_operator.Git.{StatusState, success, failure, error, pending}
use cicd_operator.Api.Tasks.{NotiEmail, NotiSlack, NotificationMethods, Notification}
use cicd_operator.PipelineManager.Notify.{
  CustomRun, RunAnswer, existing, missing, unanswered, RunCluster, Notified, get_spec_from_status,
  jobs_of_type, get_notification_from_spec, email_run, slack_run, next_unless_error, create_missing,
  create_owned, create_once, handle_email_notification, handle_slack_notification, notify_methods,
  notify_of, notify_job, handle_notification,
}

-- The run of one of the methods.
abbrev pub IsRunOf : IntegrationJob → Job → NotificationMethods → CustomRun → Type 0
IsRunOf ij j m r =
    ((e : NotiEmail) × (m.email ≡ some e) × (r ≡ email_run ij j e))
    ⊎ ((s : NotiSlack) × (m.slack ≡ some s) × (r ≡ slack_run ij j s))

some-injective : {a b : Job} → some a ≡ some b → a ≡ b
some-injective h = cc

spec-In :
    (s : RunStatus) (jobs : List Job) (j : Job)
    → get_spec_from_status s jobs ≡ some j
    → In j jobs × (j.name ≡ s.name)
unfolding get_spec_from_status
spec-In s [] j e = cc
spec-In s (k ∷ jobs) j e = elim (Bool-cases (k.name == s.name)) [
  | inl y ↦
      let q : k ≡ j = some-injective (rw y at e) in
      (inl (sym q), ap (λ (x : Job). x.name) (sym q) ∙ (==_iff k.name s.name).0 y)
  | inr n ↦ let (m, q) = spec-In s jobs j (rw n at e) in (inr m, q)
]

In-next_unless_error :
    (a b : Notified) (r : CustomRun) → In r (next_unless_error a b).0 → In r a.0 ⊎ In r b.0
unfolding next_unless_error
In-next_unless_error (runs, some e) b r h = inl h
In-next_unless_error (runs, none) b r h = In-append r runs b.0 h

-- The methods of a notification for a state: a job that has ended well or badly, and no other.
abbrev pub IsFor : StatusState → Notification → NotificationMethods → Type 0
IsFor success n m = n.on_success ≡ some m
IsFor failure n m = n.on_failure ≡ some m
IsFor error n m = n.on_failure ≡ some m
IsFor pending n m = ⊥

get_notification_from_spec-IsFor :
    (st : StatusState) (n : Notification) (m : NotificationMethods)
    → get_notification_from_spec st n ≡ some m
    → IsFor st n m
unfolding get_notification_from_spec
get_notification_from_spec-IsFor success n m e = e
get_notification_from_spec-IsFor failure n m e = e
get_notification_from_spec-IsFor error n m e = e
get_notification_from_spec-IsFor pending n m e = cc e

-- Some method of the notification for the state: the job has been notified of as its specification wants.
abbrev pub Wants : RunStatus → IntegrationJob → Job → CustomRun → Type 0
Wants s ij j r =
    (n : Notification) × (m : NotificationMethods) × (j.notification ≡ some n)
    × IsFor s.state n m
    × IsRunOf ij j m r

module _ (c : RunCluster) (r : CustomRun) where
  abbrev IsMissing : Type 0
  IsMissing = c.get_run r.name r.namespace ≡ missing

  create_missing-In :
      (run : CustomRun) (a : RunAnswer)
      → In r (create_missing c run a).0
      → (r ≡ run) × (a ≡ missing)
  unfolding create_missing
  create_missing-In run existing h = absurd h
  create_missing-In run missing (inl q) = (q, refl)
  create_missing-In run missing (inr k) = absurd k
  create_missing-In run (unanswered e) h = absurd h

  create_owned-In :
      (run : CustomRun) (o : Option Str) → In r (create_owned c run o).0 → (r ≡ run) × IsMissing
  unfolding create_owned
  create_owned-In run (some e) h = absurd h
  create_owned-In run none h =
      let (q, m) = create_missing-In run (c.get_run run.name run.namespace) h in
      (q, subst (λ (x : CustomRun). c.get_run x.name x.namespace ≡ missing) (sym q) m)

  email-In :
      (ij : IntegrationJob) (j : Job) (o : Option NotiEmail)
      → In r (handle_email_notification c ij j o).0
      → IsMissing × (e : NotiEmail) × (o ≡ some e) × (r ≡ email_run ij j e)
  unfolding handle_email_notification create_once
  email-In ij j none h = absurd h
  email-In ij j (some e) h =
      let (q, m) = create_owned-In (email_run ij j e) c.owner_error h in (m, e, refl, q)

  slack-In :
      (ij : IntegrationJob) (j : Job) (o : Option NotiSlack)
      → In r (handle_slack_notification c ij j o).0
      → IsMissing × (s : NotiSlack) × (o ≡ some s) × (r ≡ slack_run ij j s)
  unfolding handle_slack_notification create_once
  slack-In ij j none h = absurd h
  slack-In ij j (some s) h =
      let (q, m) = create_owned-In (slack_run ij j s) c.owner_error h in (m, s, refl, q)

  methods-In :
      (ij : IntegrationJob) (j : Job) (o : Option NotificationMethods)
      → In r (notify_methods c ij j o).0
      → IsMissing × (m : NotificationMethods) × (o ≡ some m) × IsRunOf ij j m r
  unfolding notify_methods
  methods-In ij j none h = absurd h
  methods-In ij j (some m) h = elim (In-next_unless_error _ _ r h) [
    | inl k ↦ let (a, e, q, p) = email-In ij j m.email k in (a, m, refl, inl (e, q, p))
    | inr k ↦ let (a, s, q, p) = slack-In ij j m.slack k in (a, m, refl, inr (s, q, p))
  ]

  notify_of-In :
      (ij : IntegrationJob) (s : RunStatus) (j : Job) (o : Option Notification)
      → In r (notify_of c ij s j o).0
      → IsMissing
        × (n : Notification) × (m : NotificationMethods) × (o ≡ some n)
        × IsFor s.state n m
        × IsRunOf ij j m r
  unfolding notify_of
  notify_of-In ij s j none h = absurd h
  notify_of-In ij s j (some n) h =
      let (a, m, q, w) = methods-In ij j (get_notification_from_spec s.state n) h in
      (a, n, m, refl, get_notification_from_spec-IsFor s.state n m q, w)

  notify_job-In :
      (ij : IntegrationJob) (s : RunStatus) (jobs : List Job) (o : Option Job)
      → get_spec_from_status s jobs ≡ o
      → In r (notify_job c ij s o).0
      → IsMissing × (j : Job) × In j jobs × (j.name ≡ s.name) × Wants s ij j r
  unfolding notify_job
  notify_job-In ij s jobs none e h = absurd h
  notify_job-In ij s jobs (some j) e h =
      let (i, q) = spec-In s jobs j e in
      let (a, n, m, p, g, w) = notify_of-In ij s j j.notification h in (a, j, i, q, (n, m, p, g, w))

  -- A run that a notification creates is missing in the cluster, and is the run of a method that a job of the
  -- configuration wants: one for events of the type, with the name of the status, whose notification for the
  -- state of the status has the method.
  pub notification-Wants :
      (s : RunStatus) (ij : IntegrationJob) (jobs : ConfigJobs)
      → In r (handle_notification c s ij jobs).0
      → (c.get_run r.name r.namespace ≡ missing)
        × (j : Job) × In j (jobs_of_type ij.spec.config_ref.type jobs)
        × (j.name ≡ s.name)
        × Wants s ij j r
  unfolding handle_notification
  notification-Wants s ij jobs h =
      notify_job-In ij s (jobs_of_type ij.spec.config_ref.type jobs) _ refl h
