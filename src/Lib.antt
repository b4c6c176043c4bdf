-- ===== src/Lib.antt =====
-- The CI/CD operator, a Kubernetes operator in Go. Git servers report pull requests and pushes; the dispatcher turns
-- an event into an IntegrationJob that runs the configured tests; the scheduler starts a Tekton PipelineRun for each
-- pending job, within a limit; the pipeline manager writes the outcome into commit statuses; the blocker merges pull
-- requests that meet the conditions of their repository.
--
-- Base: Boolean tests, lists, byte strings, integers and association lists that the other files share. A string is the
--   list of its bytes. The integers are needed where a count may fall below zero.
-- Api, Git: the types of api/v1 and of pkg/git/git_types.go, with the accessors that the code below calls. Api.Tasks: what
--   a job asks Tekton to run. Tekton: the types of Tekton's API that the code fills in.
-- Structs.Queue: pkg/structs/queue.go, the sorted unique list (add for Add, for_each for ForEach, count for Len). The
--   doubly linked nodes are a list; an item is a value, as Add copies it.
-- Structs.Graph: pkg/structs/graph.go. The two maps of slices are association lists. The recursive methods take fuel,
--   and none is a recursion that has not ended with it: is_cyclic gives itself one call more than the graph has nodes,
--   and get_pres takes its fuel as an argument. The order of the keys of a map is the order of the list, over all lists.
-- Pool: pkg/scheduler/pool/pool.go. sync_job is SyncJob, with a function for each of its parts. The channel is the number
--   of its tokens; a timeout goroutine is the time at which it wakes. Pool.Phase views the pool as one phase for
--   each job.
-- Scheduler: pkg/scheduler/scheduler.go and fifo.go. run is one pass, under the pool's lock. The cluster is a record of
--   functions that answer a request by the job; the requests that change it are recorded in order.
-- Dispatcher: pkg/dispatcher/dispatcher.go. Regular expressions are a parameter that compiles a pattern to a test.
-- JobGraph: Jobs.GetGraph of api/v1/job_types.go, and filterDependentJobs of
--   pkg/chatops/plugins/trigger/handlers_trigger.go, which gives GetPres one call more than the graph has nodes.
-- SizePlugin: pkg/plugins/size/size.go. The requests to the git server are recorded in order.
-- Scheduler.Reach: notifications, timeouts and passes in any order.
-- GitClient: the interface of pkg/git/git.go and the cluster as the plugins and the job controller use them. Answers are a
--   parameter; requests that change something are recorded, the latest first. An action returns a result and the
--   requests; a panic is a failure of its own.
-- ChatOps: pkg/chatops/chatops.go, with a child for each plugin: Approve, Hold and Trigger are plugins/approve, hold and
--   trigger of pkg/chatops; Commands is the registration in cmd/webhook/main.go.
-- PipelineManager.InitState, Reflect, Report: initState, the rest of ReflectStatus up to the times, and what it reports, of
--   pkg/pipelinemanager/pipelinemanager.go. Reasons are read as Tekton's constants name them; the error of
--   handleNotification is a parameter.
-- PipelineManager.Envs, Checkout, Tasks, CustomRuns, Generate: env.go, step_git_checkout.go, tektonTasks.go and
--   custom_runs.go of pkg/pipelinemanager, and Generate of pipelinemanager.go with generateTask and what it calls. URLs are
--   parsed by a parameter, as is a task of the catalog fetched.
-- PipelineManager.Notify: pkg/pipelinemanager/notification.go, the runs that a completed job has created.
-- JobController: controllers/integrationjob_controller.go. It calls ReflectStatus, and its Notify is the scheduler's.
-- ApprovalController, RoleBinding: controllers/approval_controller.go, less the role's rules and the texts of the mails.
-- ApprovalRun: controllers/customs/approval_run_controller.go, which reads the parameters that PipelineManager.CustomRuns
--   writes. ApprovalApi: pkg/apiserver/apis/v1/approvals/decision.go, the request that decides an approval.
-- ConfigController: controllers/integrationconfig_controller.go, with GetGitHost and GetToken of api/v1. Reconcile is the
--   whole, Webhooks and Accounts are its requests to the git server and for the account and the secret.
-- Cron: pkg/cron/cron.go. The cron library is a parameter whose entries have ids of their own.
-- Collector: pkg/collector/collector.go, with the cron library of Cron.
-- PeriodicTrigger: pkg/periodictrigger/periodic_trigger.go, one tick. It calls Cron; random ids are a parameter.
-- PipelineManager.Description: the base commit that pkg/pipelinemanager/pipelinemanager.go writes into a description.
-- Blocker.Checks: pkg/blocker/checks.go. A set of labels is a list.
-- Blocker.Pool, SyncPool, SyncStatus, Merge: pkg/blocker/blocker.go, sync_pool.go, sync_status.go and merge.go, one round
--   of each role for one repository. The pull request objects stand in a store under addresses, since the maps and the
--   batch share them. The merger calls the dispatcher's filter_jobs and generate_pre_submit and reads descriptions with
--   the pipeline manager's parse_base_from_description. A git server's answer to a merge is a function of the merges asked
--   before. A panic is none.
-- Tests: each theorem at a concrete input where its hypotheses hold.
--
-- Every job has a timeout, as GetDuration sets one. Each operation runs under its lock, so operations are functions of
-- the state; the timeouts of the pool send without the lock, which is modelled as one step, so that what their race with a
-- notification can do is left out. Sleeps and log lines are left out. Not modelled: HTTP and Kubernetes clients, the git servers' requests and parsers, the
-- webhook server, the mail and slack senders with their runs, the expose controller, the rest of the api server and the
-- command line, which are input and output around the parts above or
-- depend on libraries outside the repository; the generated deep copies.
pub mod Base
pub mod Structs
pub mod Tekton
pub mod Api
pub mod Pool
pub mod Scheduler
pub mod Git
pub mod Dispatcher
pub mod PipelineManager
pub mod Blocker
pub mod JobGraph
pub mod SizePlugin
pub mod GitClient
pub mod ChatOps
pub mod JobController
pub mod Cron
pub mod PeriodicTrigger
pub mod RoleBinding
pub mod ApprovalController
pub mod ApprovalRun
pub mod ApprovalApi
pub mod Collector
pub mod ConfigController
mod Tests
