-- ===== src/Lib.antt =====
-- The distributed task queue: its job model, in-memory store, queue manager, worker, rate limits,
-- tenants, batches, recurring schedules and HTTP API.
--
-- The program takes jobs into named queues, hands them to workers by priority, retries failures with
-- a delay and keeps the state of each job in a storage backend. `Manager` calls the backend through
-- an interface; the worker pool calls the manager and, for workers and metrics, the backend. The
-- recurring scheduler enqueues jobs, the tenants register queues and the batches update jobs through
-- the manager; the HTTP API calls the manager and the scheduler; the rate limiters stand alone.
--
-- The parts and their files:
--   Job, Job/Queue, Job/Worker: pkg/job/job.go, queue.go and worker.go. A struct is a record of the
--     same fields, a string enumeration a data type, `IsTerminal` is `is_terminal` and so on.
--   Memory and its children: internal/storage/memory/memory.go. `MemoryStore` is a record of maps; the
--     methods are in Memory/Jobs, Queues, Workers, Metrics and Configs. Their children hold proofs.
--   Manager and its children: internal/queue/manager.go. `Manager.Storage` is the interface of the
--     backend, filled by the in-memory store as `memory_storage`.
--   Pool and its children: internal/worker/pool.go. Pool/Running is the processing of one job,
--     Pool/Backoff the retry delay, Pool/Setup holds NewPool, Start, Stop and the registrations, and
--     Pool/Loops the goroutines: an event is a step of one of them, in any order. The lists of the
--     fetched, finished, returned and lost jobs in its state are records of the run, not of the source.
--   Limits and its children: internal/features/ratelimit.go, the sliding window in Limits/Window and
--     the token bucket in Limits/Bucket. `SetLimit` and `Allow` of the bucket are `set_rate` and
--     `take_token`.
--   Recurring and its children: internal/scheduler/scheduler.go. Recurring/Schedules holds the methods
--     on the schedules, Recurring/Ticks the work of a tick, Recurring/Cron the next time of a cron
--     expression.
--   Tenancy and its children: internal/features/tenancy.go. A pointer to limits is an `Option`, as it
--     may be nil.
--   Batching and its children: internal/features/batching.go. Batching/Batches holds the methods,
--     Batching/Schedule the events in any order: AddJob, a timer that fires, a call of processBatch
--     that takes its batch, the processing of a batch, Stop.
--   Api and its children: internal/api/http/server.go. Api/Jobs, Queues and Schedules hold the
--     handlers, Api/Routes what setupRoutes registers, Api/Paths the slices of a path and the answers.
--   Redis and its children: internal/storage/redis. Redis/Jobs, Queues and Workers hold the methods of
--     redis.go, queue.go and worker.go, Redis/Server what the documentation says of the commands. The
--     names of its methods are not those that the manager calls, so it does not fill the interface.
--   Base: lists, integers, maps, and `Outcome`, the value, error or panic of a Go call; its error
--     texts are those of pkg/errors/errors.go.
--   Examples: runs at concrete inputs.
--
-- How code is read. A method that changes its receiver is a function from the state to an outcome and
-- the state after it, also when it fails. `int`, `int64`, `time.Duration` and `time.Time` are integers;
-- the retry delay, the weights and the total of durations wrap at 64 bits and differences of times
-- saturate there, other sums stay far below and are not wrapped. A method that reads the clock takes the reading, or all its readings in order as
-- `now`. A map is an association list; the order of `range` over a map, which Go leaves open, is the
-- list's, and the sort of a listing keeps the order of jobs that were created at one time, where Go
-- promises none: which of these comes first in a page is the model's choice. Where the packages disagree on a field or an argument (`UpdatedAt`, `RetryCount`,
-- `TimeoutSeconds`, `QueueConfig.Timeout`, `ErrQueueEmpty`, pointers in `Worker`, the arguments of
-- the error constructors), the use is followed, under the declared name where there is one; a job
-- whose scheduled time is the zero time has none. The model shares no pointers between the manager's
-- configurations and its callers.
--
-- Parameters. The random source of the queue selection and the users' job handlers are arguments; a
-- handler returns how it ended, with the text of the value of a panic, and the job as it leaves it, and
-- does not touch the store. So are the
-- float64 arithmetic of the token bucket and of the Redis score, the commands of the Redis client,
-- JSON, the calendar functions of the package time, the identifiers that are drawn for schedules and
-- their jobs, and the order in which a tick walks the map of the schedules. All recursion is
-- structural, so there is no fuel: `Wait` polls at the instants of a list, after the last of which
-- its context is done.
--
-- Not modelled: the PostgreSQL backend (its work is in SQL, which another program runs), in the
-- Redis backend the scans of all keys and the metrics, the dashboard's files, the log and Prometheus
-- output, the commands, the numbers in the texts of the tenants' limit errors, and the ticker and
-- the goroutine of the scheduler. A failed AddSchedule leaves its mark on the caller's struct only,
-- which is not part of the state.
pub mod Api
pub mod Base
pub mod Batching
pub mod Examples
pub mod Job
pub mod Limits
pub mod Manager
pub mod Memory
pub mod Pool
pub mod Recurring
pub mod Redis
pub mod Tenancy
