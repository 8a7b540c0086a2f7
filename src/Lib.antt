-- ===== src/Lib.antt =====
-- libvirt-volume-provisioner, a daemon that provisions LVM volumes from images in MinIO.
--
-- A client posts a request to the HTTP API. The handlers (internal/api/handlers.go), behind the
-- middleware of internal/auth/certificates.go, hand it to the job manager (internal/jobs/manager.go),
-- which starts a goroutine per job. At most two goroutines pass the semaphore; each looks for the image
-- in the cache (internal/libvirt/pool.go), downloads it if it is not there (internal/minio/client.go),
-- makes an LVM volume and fills it by external programs (internal/lvm/manager.go), with retries
-- (internal/retry/backoff.go). The changes of a job's status are saved in SQLite (internal/storage).
--
-- The files:
--   Base      the libraries' names, tests on numbers, lists measured by them, 64-bit integers
--   Text      strings as lists of bytes, the functions of package strings, strconv's numbers
--   Path      what is used of path/filepath
--   Act       fallible code over a state: a result is a value, an error with its message, or a panic
--   Types     pkg/types/types.go
--   Retry     WithRetry (with_retry), its bounds, and the two parsers of settings (Retry.Settings)
--   Job       the Job of internal/jobs/manager.go and UpdateProgress; Job.Saving is syncToDatabase and
--             RecoverJobs
--   Host      what a job runs on: programs, clock, MinIO server, files
--   Volume    internal/lvm/manager.go without its programs: command lines, output of lvs, sizes
--   Lvm       internal/lvm/manager.go over the programs; Lvm.Setup is NewManager
--   Cache     internal/libvirt/pool.go, the files of the cache; Cache.Pool is NewPoolManager, ensurePool,
--             AllocateImage and Close, over the calls of libvirt
--   Minio     internal/minio/client.go; Minio.TempFile is DownloadImage with its temporary file,
--             Minio.Setup is NewClient
--   Provision ProvisionVolume, getOrDownloadImage and getImageChecksum
--   Storage   internal/storage/db.go as a table of rows; Storage.Cleanup is ListJobs and the
--             statements on many rows, Storage.Schema is initSchema, Storage.Opening is NewStore and
--             Close
--   Jobs      the job manager: a state and the events of goroutines, callers and clock; Jobs.Lives
--             is the abstract machine of the jobs' lives
--   Worker    runJob: ProvisionVolume on the host, and the event of its return
--   Auth      internal/auth/certificates.go
--   Api       internal/api/handlers.go over the interface JobManager
--   Service   the interface JobManager filled by the model of the manager
--   Daemon    cmd/provisioner/main.go: the start of all parts, the server and the exit
--   Examples  the theorems at concrete inputs
--
-- Functions keep the source's names in lower case with underscores. Sections take what is not in the
-- repository as parameters: the programs that os/exec starts, the clock, the context, the MinIO server,
-- the parser of URLs, libvirt, the MinIO SDK, the certificates, the hash, the JSON encoder and the
-- errors that the operating system or the database engine reports.
--
-- Loops are structural: WithRetry recurses on the attempts that are left, the copy loop on what the
-- reader returns, the event loop of the jobs on the list of events. No fuel is used. Products in 64-bit
-- arithmetic wrap around (wrap64). Percentages are exact fractions in place of floating-point numbers.
-- Times are nanoseconds since 1970 as natural numbers.
--
-- A job's goroutine is a thread with a phase (waiting, executing, done). The steps of ProvisionVolume
-- are sequential code in Provision; in Jobs, what it leaves in the job is part of the events, so that
-- the theorems on Jobs hold whatever it does; Worker puts the two together. The mutexes are not
-- modelled: an event is atomic, except that CancelJob, whose mutex runJob does not take when it writes
-- the status, is also the two events of its check and its rest, between which anything may happen. A
-- panic of ProvisionVolume is no event, since it ends the process: Worker says what the deferred
-- functions have done by then. SaveJob is a transaction over a session of the database, which is open,
-- committed or rolled back.
--
-- Not modelled: the listening and the time limits of net/http, gin's binding of requests, the text of
-- the Prometheus metrics, log messages, the test code under integration, and a reader that never ends.
pub mod Base
pub mod Text
pub mod Path
pub mod Act
pub mod Types
pub mod Retry
pub mod Job
pub mod Host
pub mod Volume
pub mod Lvm
pub mod Cache
pub mod Minio
pub mod Provision
pub mod Storage
pub mod Jobs
pub mod Auth
pub mod Api
pub mod Worker
pub mod Service
pub mod Daemon
pub mod Examples
