-- ===== src/Lib.antt =====
-- OpenLambda: a worker that runs lambda functions in sandboxes.
--
-- The parts that are modelled, those of the worker from the inside out:
--
-- * MemPool (go/worker/sandbox/memPool.go): the task that hands out memory. `mem_task` is a round of
--   its loop: one message, and at most one demand that waited. `run` is the loop over the messages
--   that arrive. A response channel is the `id` of its request.
-- * SandboxApi and SafeSandbox (go/worker/sandbox/api.go, safeSandbox.go): the layer around every
--   sandbox that tells listeners of its life. The wrapped sandbox is a parameter, a record of its
--   methods (`Sandbox`), over any type of states and of errors. A method holds the lock from its
--   start to its end, so `step` is a method, and `run` is any interleaving of calls.
-- * Evictor (go/worker/sandbox/evictors.go): it reads those events (`update_state`) and kills
--   sandboxes when memory runs short (`do_evictions`), the two steps of the loop of `Run`. Watching
--   puts it behind a SafeSandbox, as the worker does.
-- * RollingAvg (go/common/stats.go): the average of the last execution times.
-- * LambdaFunc (go/worker/lambda/lambdaFunction.go): Pull and Refresh are `pullHandlerIfStale`; Task
--   is the loop of `Task`, one message and the scaling step after it in a `turn`; Scaling, Settling,
--   Serving and Retiring hold its theorems. The average that it scales by is that of RollingAvg.
-- * LambdaInstance (go/worker/lambda/lambdaInstance.go): the loop of `Task`, which serves the requests
--   of a function with one sandbox at a time. A `step` goes from one wait to the next.
-- * ImportCache (go/worker/lambda/zygote/importCache.go): the tree of Zygotes and the search in it
--   (Lookup), the counted references to the Zygote of a node (Zygote, RefCount), and the two tries to
--   fork from it (Tries).
-- * PackagePuller (go/worker/lambda/packages/packagePuller.go): `GetPkg`, which installs a package once,
--   and `InstallRecursive`, the closure under dependencies. Names are texts here, lists of bytes.
-- * SockPool (go/worker/sandbox/sockPool.go, sock.go): sandboxes that fork from each other: `Create`,
--   `fork`, `Pause`, `Unpause`, `Destroy` and the references that keep the memory of a parent, under the
--   guards of SafeSandbox. The containers are a list, newest first, so that a release, which goes on to
--   the parent, goes down the list. A call that waits for memory stands in a `run` where it is served.
--   Its file says why a call is one step, and what is not: the limit of a released cgroup, which is
--   read after the release, is an argument (`Ending`).
-- * Cgroups (go/worker/sandbox/cgroups/pool.go, cgroup.go): the task that keeps control groups ready, and
--   the calls of sandboxes that take and release them; an `Event` is one step of either. Places is
--   where each group stands, Fits and Limits are what it is limited to, Shutdown is the end of the
--   task, and Files and Reading are what is read from the files of the kernel.
-- * HandlerPuller (go/worker/lambda/handlerPuller.go): the cache of directories with the code of
--   functions, which LambdaFunc pulls from. Storage (go/common/storage.go) names those directories, and
--   LambdaConfig (go/common/lambdaConfig.go) has the settings of a function and the check of its name.
-- * LambdaManager (go/worker/lambda/lambdaManager.go, zygote/multiTree.go, zygote/zygote.go): how the
--   worker makes all of these, hands out functions, and shuts them down (Starting, Failing, Sessions,
--   Ending). What it did is a list of acts.
-- * Latency (go/common/stats.go): the statistics of latencies of the whole process.
-- * Settings (go/common/config.go): the limits of sandboxes and the check of a worker's settings, which
--   the evictor relies on.
-- * KafkaCache (go/worker/event/cachedKafkaClient.go): the cache of records that replays after a seek.
-- * KafkaServer (go/worker/event/kafkaServer.go): the Kafka consumers of a worker, by function, and the
--   loop of a consumer (Consuming), which polls the client of KafkaCache and does the seeks that the
--   function's replies ask for.
-- * WorkerPool (go/boss/cloudvm/worker_pool.go), of the boss that runs a cluster: how a virtual machine
--   goes through the four maps of the pool (Places), how many are started, cleaned or recovered
--   (Policy), and which one gets a task (Queue).
-- * Autoscaling (go/boss/autoscaling/threshold.go): the target of that pool by the load of its workers.
-- * BossTriggers (go/boss/event): the cron jobs and Kafka consumers of functions, as the boss has them
--   started and stopped.
-- * LambdaStore (go/boss/lambdastore/store.go): the functions that are registered and their settings.
--
-- Prelude holds what they share: Boolean tests, lists over the native numbers, signed integers, maps,
-- texts.
--
-- How the code is read. Identifiers, directories, packages and sandboxes are numbers. Times are
-- nanoseconds of a clock that does not run backwards. Go's int has 64 bits; here a signed quantity
-- that may go below 0 is an integer (`ℤ`) and any other a natural number, both without bound, since
-- memory in MB, counts and milliseconds stay far below that. A panic is `none` or a result of its
-- own. Log lines, traces and, but for Latency, latency timers are left out. Every goroutine that is
-- modelled owns its state or holds a lock, but for SockPool, so what it does between two messages, or from lock to
-- unlock, is one step, and a theorem on all lists of messages, calls or events is one on all
-- interleavings. What the code calls outside itself, the file system, the package installer, the
-- sandbox pool, the Kafka library, is an argument that gives its answers. The loops are structural:
-- over messages, list elements, or a count that the code computes beforehand, but for that of
-- `InstallRecursive`, whose list grows while it runs. It has fuel, one for each package asked for
-- and each name that can be a dependency, which its theorem shows to be enough; `wakes` counts the
-- timeouts of a scaling timer, and its theorem says how many are enough.
--
-- Not modelled: the Docker sandboxes, which are calls of a client, and of the SOCK ones the processes,
-- mounts and namespaces; the HTTP servers; the files of the settings; the cloud platforms and the
-- server of the boss (go/boss); the command line; and the runtimes in other languages.
mod Prelude
pub mod MemPool
pub mod SandboxApi
pub mod SafeSandbox
pub mod Evictor
pub mod RollingAvg
pub mod LambdaFunc
pub mod KafkaCache
pub mod ImportCache
pub mod Settings
pub mod WorkerPool
pub mod LambdaInstance
pub mod PackagePuller
pub mod SockPool
pub mod KafkaServer
pub mod BossTriggers
pub mod LambdaStore
pub mod Autoscaling
pub mod Cgroups
pub mod Latency
pub mod LambdaConfig
pub mod HandlerPuller
pub mod Storage
pub mod LambdaManager
