-- ===== src/Lib.antt =====
-- A model of the core of cedana, a daemon that checkpoints and restores processes, with theorems.
--
-- The daemon keeps jobs (internal/cedana/job): each names a process, and the job manager keeps the
-- jobs and their checkpoints in memory, backed by a database that a background routine brings up to
-- date. A job may use a GPU through a controller process; internal/cedana/gpu keeps a pool of them. A
-- dump or a restore is one conversation with a CRIU process (pkg/criu) in which CRIU calls hooks; the
-- GPU controller takes part through a callback. A dump is stored as a tarball in one of the formats
-- of pkg/io, or streamed through a separate process (internal/cedana/streamer); the adapters of
-- internal/cedana/filesystem see to the directories around it. Jobs, hosts and checkpoints are kept in
-- SQLite (internal/db). What the daemon is made of beside itself is installed by pkg/plugins.
--
-- Base.antt         shared names, Boolean tests, lists, association lists for sync.Map, and texts as
--                   bytes with decimal numbers
-- Job.antt          internal/cedana/job/job.go (Job, Sync, latestState and the setters) with the part
--                   of FillProcessState of pkg/utils/process.go that it relies on
-- Job/Stat.antt     parseStatPIDPPID of pkg/utils/process.go
-- Job/State.antt    what a sync of a job makes of its state
-- Manager.antt      internal/cedana/job/manager_lazy.go: State (ManagerLazy and its actions), Jobs and
--                   Checkpoints (the methods), Sync (syncWithDB and one turn of the routine), Channel
--                   (the bounded channel `pending` and the phases of the routine)
-- Manager/Tracked, Worker, Drain
--                   the actions that deletions owe the database, and the emptying of the channel
-- Manager/Pids, PidHistory, Races, Latest
--                   PIDs of jobs, and the latest checkpoint
-- Manager/Adapters  Manage of internal/cedana/job/run_adapters.go and ManageRestore of
--                   restore_adapters.go, around any handler that follows; Manager/Managed for proofs
-- Gpu.antt          internal/cedana/gpu: Controller and Pool (controller.go), Manager
--                   (manager_simple.go, manager_pool.go); Listing, Booking and Upkeep for proofs
-- Gpu/Profile       internal/cedana/gpu/profiling.go (gpuPhaseRows, gpuOtherRows,
--                   gpuMergedIntervalDurationNs, gpuWorkerDurationStats); Coverage, Uncovered and
--                   Stats for proofs
-- Criu.antt         pkg/criu: Notify (the hooks and their composition), Swrk (doSwrkWithResp of
--                   criu.go), Order and Finalize for proofs; GpuDump and
--                   GpuRestore (the callbacks of CRIUCallback in internal/cedana/gpu/controller.go)
-- Io.antt           pkg/io/compression.go: Compression, and RoundTrip for proofs
-- Streamer.antt     internal/cedana/streamer: Frame (the length of a message), Fs and Images (fs.go),
--                   File (file.go); Fds, Listing, Paths, Shuffled and Shards for proofs
-- Filesystem.antt   internal/cedana/filesystem: Dump (dump_adapters.go) and Restore
--                   (restore_adapters.go) around any handler; Outcome and Lost for proofs
-- Db.antt           internal/db: Tables and Rows (the queries and the schema of internal/db/sql), Ids
--                   (pkg/utils/slice.go), Values (the conversions) and Sqlite (the methods) of
--                   db_sqlite.go; Keys, Invariant, RoundTrip, Refines and Errors for proofs
-- Process.antt      pkg/utils/process.go: Node (fillProcessNode), Walk (FillProcessState and
--                   buildPPIDMap); Table, Rows, Forest, Filled, Once and Descendants for proofs
-- Process/Query     the functions of process.go on PIDs, descriptors and the environment
-- Process/Trees     WalkTree of pkg/utils/reflect.go
-- Process/Inherit   InheritFilesForRestore of internal/cedana/process/restore_adapters.go; Placed,
--                   Handing and Unopened for proofs
-- Gpu/Inherit       InheritFilesForRestore of internal/cedana/gpu/restore_adapters.go; Inherited,
--                   Reopened, Passed and Lost for proofs
-- Gpu/Mounts        the external mounts and the decisions of Restore and Dump, in restore_adapters.go
--                   and dump_adapters.go there
-- Profiling.antt    pkg/profiling/data.go (Data, Flatten, Clean, the totals of Print) and AttachTrailer
--                   of grpc.go; Cleaned, Flat and Trailer for proofs
-- Broadcast.antt    pkg/channel/broadcaster.go as a step relation; History and Stuck for proofs
-- Middleware.antt   pkg/types/adapter.go: handlers wrapped in adapters; Timing (pkg/types/timer.go with
--                   StartTimingComponent of pkg/profiling/timing.go)
-- Plugins.antt      pkg/plugins: Version and Files (plugin.go), Local and Copies (manager_local.go, with
--                   CopyFile of pkg/utils/files.go); Installed and Removed for proofs
-- Tests.antt        runs on concrete inputs
--
-- A method is a function from the state to the new state and its answer, and a sync.Map is an
-- association list. The order of an association list stands for the order in which Range meets the
-- entries; it is any order, since the theorems are about every list. PIDs, times and sizes are only
-- compared, and so do not wrap; the sum of bytes in a GPU profile wraps at 2^64, and durations stay
-- within the duration of a worker. A call of a method of the job manager is one step, made to its end, except
-- in Manager/Races, where Manage is its checks and what follows them. What the methods send to `pending` is a list in Manager/Sync;
-- that the channel holds 64 actions is modelled in Manager/Channel, as a step relation. Loops are
-- structural; `drain` takes a number of turns, and as many turns as there are actions are enough,
-- `list_all` a number of calls, and one more than there are names is enough, and `wait_for_pid` a number
-- of polls, and one more than find the process running is enough. The digits of a number
-- take its successor as fuel. Texts that are taken apart are lists of bytes. In the database 32-bit and
-- 64-bit numbers are their bit patterns, and the multiplication of times wraps at 2^64.
--
-- External code enters as parameters: the operating system (System and Env: the host id, the
-- processes, the process groups), the database (tables, and which calls succeed), whether the GPU
-- manager is attached to a PID, what a controller answers (Info, Freeze, Dump, Unfreeze), what TryLock
-- answers on a handle that holds the lock already (`relock`), the handlers that follow an adapter, the
-- generated names, proto.Merge, and the responses of CRIU (a list; where it ends, receiving fails).
--
-- Further parameters: what the socket to the streamer answers, what a directory lists and in which order; the encoding of
-- a job's details; for plugins the registry, the file system with what can be copied and removed, the join
-- of paths, and what versions are reported; for the adapters around a dump and a restore which calls of
-- the system and of the storage succeed, and the handlers that follow. SQLite is a list of rows per table, with
-- primary keys and CHECK constraints; it does not enforce foreign keys, which have to be switched on.
--
-- The walk over the descendants of a process takes a number of turns; as many as there are processes are
-- enough where PIDs are distinct and each process has been started after its parent. The states that it
-- allocates are cells of a heap. In the job manager a process is what its decisions read; the whole state
-- is in Process. For the adapters of the GPU the matches of regular expressions, the texts that Sprintf
-- makes, package filepath and the calls of the system are parameters. Durations of the profiler are bit
-- patterns of int64.
--
-- Not modelled: the health checks of the GPU, the start of the streamer process and the copying of
-- shards, failures of the SQLite engine and the client of a remote database, the manager of remote
-- plugins, the other adapters for requests, options, the network and the tracing of GPUs, the plugins themselves, the other timers of the profiler and its measuring of input and output, and the gRPC and command
-- line layers.
pub mod Base
pub mod Job
pub mod Manager
pub mod Io
pub mod Streamer
pub mod Gpu
pub mod Criu
pub mod Tests
pub mod Db
pub mod Plugins
pub mod Process
pub mod Middleware
pub mod Broadcast
pub mod Profiling
pub mod Filesystem
