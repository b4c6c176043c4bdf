-- ===== src/Tests/Jobs.antt =====
-- Jobs of api/v1 that run a script in a container, for the tests of the other components.
use cicd_operator.Base.{Str, str, false, Option, none, List, []}
use cicd_operator.Tekton.{Container}
use cicd_operator.Api.{Job, JobWhen}
use cicd_operator.Api.Tasks.{NotificationMethods}

abbrev pub image : Container
image = record { image = str "golang"; working_dir = []; env = [] }

abbrev pub no_methods : NotificationMethods
no_methods = record { email = none; slack = none }

abbrev pub plain_job : Str → Option JobWhen → List Str → Job
plain_job name when after = record {
  name = name;
  container = image;
  script = str "make";
  skip_checkout = false;
  when = when;
  after = after;
  tekton_task = none;
  approval = none;
  methods = no_methods;
  notification = none;
  tekton_when = [];
  results = [];
}
