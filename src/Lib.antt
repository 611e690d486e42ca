-- ===== src/Lib.antt =====
-- The backup tools of the cartyx-infrastructure repository: the scripts under deploy/data that save
-- the graph databases of an environment, restore them, and report on it, those under deploy/images
-- that record and publish the images of the databases, and the developer's commands under scripts.
--
-- The programs are Node scripts that make calls one after another: to the Kubernetes API, to an
-- object store, to files and to other programs. Each is modelled as a function of an environment,
-- which answers each call. An answer can depend on all calls that went before, so that a theorem
-- for every environment covers every behaviour of the cluster, of the store and of the operator,
-- rejections included. A run leaves a log of its calls with their answers, the latest first, and
-- the theorems are about this log and about the way in which the run ends.
--
-- Script holds the statements: state passing with JavaScript's exceptions, `process.exit`, `try`,
-- `catch`, `finally`, `for`, and `Promise.all` as attempts in order with the leftmost rejection.
-- `Post` has postconditions and their rules, and `Discipline` the rules for a script whose every
-- call is allowed by what was answered before it. Base has the shared tests, lists and JavaScript
-- strings, which are lists of UTF-16 code units.
--
-- Cluster is deploy/data/cluster-api.mjs: `paths` (Cluster/Paths), `microTime` and the other dates
-- (Cluster/Clock), `clusterApi` (Cluster/Http), `until` (Cluster/Wait) and `resume`
-- (Cluster/Resume), with the calls (Cluster/Request) and the documents, of which only the fields
-- that are read are present (Cluster/Documents). A wait lasts at least as long as was asked, so
-- that `until` is given the rounds that its seconds allow for, and one more; Cluster/Wait/Ending is
-- about them. Time is in whole milliseconds, and dates are those of the years 1970 to 9999;
-- Cluster/Clock has the calendar that they are compared with.
--
-- Backup is deploy/data/backup-cluster.mjs. Backup/Steps is the script up to the stop of the
-- databases, Backup/Archive the archive, its upload and its marker, Backup/Retention
-- `retireOldBackups`, and Backup/Main the rest: the constants, the `recover` branch, the `try`, the
-- `catch` and the `finally`. SIGTERM and SIGINT set `cancelled` at any call, and it is read at the
-- checkpoints. The pages of a bucket listing are bounded by a number that is a parameter of a run;
-- beyond it the run is `diverged`, which is no outcome of the program. Backup/Protocol is the
-- specification, a machine that says which call may follow which; Backup/Protocol/Meaning,
-- Following and Holding say what its stages mean, in terms of the last words on each database and
-- reconciler, on the archive and on its key; Backup/Conduct follows the script through the machine,
-- the `recover` branch included (Conduct/Unsure and Recovering; Conduct/Founded is about what it
-- must have seen), and Backup/Promises states what follows for every run. Backup/Retention/Scope,
-- Policy and Tidying are about what the retention may delete.
--
-- Upload is deploy/data/backup-upload.mjs, Restore is deploy/data/restore-cluster.mjs (Requests,
-- Checks, Loading and Main are the script; Trust says what must be known before each call), and
-- Metrics is deploy/data/backup-metrics.mjs, with `Date.parse` and `Number` as parameters
-- (Metrics/Printing is about its text, Metrics/Writing and Serving about its answers). Secrets is
-- deploy/data/secrets.mjs, with its steps in Secrets/Writing and the theorems in Secrets/Provision.
--
-- Local is deploy/data/backup.mjs. Local/Places is Node's `path` on absolute paths, Local/Requests
-- the calls, Local/Saving `local-backup`, Local/Restoring `local-restore`, and Local/Main the lock
-- around them. Trust says what must be known before each call, Stopping and Rehearsing follow the
-- two actions through it, Growth shows that no answer is lost on any way out, Whole puts a run
-- together, and Promises and Accepted state what follows.
--
-- Kubernetes is deploy/data/kubernetes.mjs. Kubernetes/Secrets is `provision-backup-secret` and
-- `provision-secret`, Kubernetes/Jobs `cql-security`, and Kubernetes/Main the arguments and the
-- choice among them. Trust says what must be known before each call, Tidy is about the Job and the
-- scratch directory that are removed again, Copying, Adding and Checking follow the three actions,
-- and Whole and Promises are about a whole run.
--
-- Images is deploy/images/publish-manifests.mjs, Images/Trust says what must be known before an
-- index is created and before it is reported, and Images/Publishing follows the script.
-- Images/Recording is deploy/images/record-digests.mjs, and Images/Naming and Accepting are about
-- the two together.
--
-- Network is deploy/data/network-security.mjs. Network/Cleaning is about the Jobs that it creates
-- and deletes, Network/Verdict about their results, and Network/Promises about a whole run. The
-- waits of `Promise.allSettled` stand one after another.
--
-- Commands is scripts/dev-data.mjs, and Commands/Reporting is about its exit status.
--
-- Not modelled: the options of the HTTP and S3 clients and their close, console output, the values
-- of secrets where they are only handed on, the bytes of archives and the streams that carry them,
-- and JSON printing. The checks of a live cluster (deploy/data/preflight.mjs, security.mjs,
-- smoke.mjs, deploy/images/verify.mjs) and everything that is not JavaScript are not modelled.
pub mod Base
pub mod Script
pub mod Cluster
pub mod Backup
pub mod Upload
pub mod Restore
pub mod Metrics
pub mod Secrets
pub mod Local
pub mod Kubernetes
pub mod Images
pub mod Network
pub mod Commands
