-- ===== src/Lib.antt =====
-- Verification library for the task services of Teaclave (incubator-mesatee): a platform on
-- which several users register functions and files, agree on a task, and let an executor run it
-- inside an enclave.
--
-- The program's parts. The management service (services/management/enclave/src/service.rs) takes
-- the requests of users on files, functions and tasks; the scheduler service
-- (services/scheduler/enclave/src/service.rs) hands staged tasks to executors and takes their
-- results; both keep everything in the storage service (services/storage/enclave/src/service.rs),
-- a LevelDB database with a queue on top. What a task is, its states and what each may do, is
-- types/src/task_state.rs and types/src/task.rs.
--
-- The files.
--   Base          texts as lists of bytes (Utf8), results and the state monad of the handlers
--                 (Outcome), hash sets and maps as lists, and rules for calls that only read
--                 (Reads).
--   Types         types/src: owner lists (Owners), files (File), functions (Function), crypto
--                 infos (Crypto, with crypto/src/lib.rs), staged tasks (Staged), storage keys
--                 (Storage), and the task: Task (task.rs), TaskState, Transition and Restore
--                 (task_state.rs). `Task S` is `Task<S>`; `restore_run` is `TryFrom<TaskState>`
--                 for `Task<Run>`, `save_run` the way back, and so on. WellFormed says what holds
--                 of a stored task, Saving that the operations keep it, and Moves, Progress,
--                 Tags, Finishing and Participants how they change it.
--   Storage       services/storage: LevelDb is what the service takes from the database, Queue is
--                 `DBQueue`, Service the five requests, Keys, Slots and Fifo their theorems, and Client
--                 what the other services rely on, with the proof that the service gives it.
--   Management    services/management: Requests, Db (`write_to_db` and its like), Files and Tasks
--                 (one function per request, named after it).
--   Scheduler     services/scheduler.
--   Authentication services/authentication: Users (user_db.rs and user_info.rs), Requests
--                 (api_service.rs and internal_service.rs) and what they mean (Login).
--   System        the services over one store: Step is what one write may do to the stored tasks,
--                 ManagementFiles, ManagementTasks and SchedulerSteps show that every request
--                 takes such steps, TaskAnswers, StateAnswer, Added and Assigned (`get_task` and
--                 `assign_data`), FileAnswers and SchedulerAnswers what a request that succeeds
--                 means, Later and Reach what holds over any sequence of requests.
--   Frontend      services/frontend: Service (`authenticate` and the macro that forwards), Requests
--                 (the fifteen requests), Forwarding what a forwarded request means. System's
--                 Authenticated puts it together with Authentication and Management.
--   Rpc           rpc/src/protocol.rs: Protocol (`JsonProtocol`) and Frames, its theorems.
--   Functions     function/src: Intersect (ordered_set_intersect.rs, with Order, Parse and Marks),
--                 Join (private_join_and_compute.rs, with Sums), Small (echo.rs, password_check.rs,
--                 online_decrypt.rs, rsa_sign.rs) and Decrypt.
--   Execution     services/execution, worker, executor and runtime: Platform is what the machine
--                 below provides, StagedFile (types/src/staged_file.rs), Paths and Files
--                 (task_file_manager.rs), Worker (worker.rs, the executors), Service (one round of
--                 `start`), Context (executor/src/context.rs), and their theorems in Uploads,
--                 Registry, Changes and Handles. System's Rounds and Failing run it with the
--                 scheduler.
--   Examples      a database in memory, stand-ins for the crates, a run of a task by two users, a
--                 user who registers, a machine with files in memory and a task that runs on it.
--
-- How the state corresponds. A handler is an action on the store: it returns a result or an error,
-- and the store it leaves, also when it fails after a write. The arguments `fresh`, `in_url` and
-- `crypto_info` of a handler are what it draws at random. A client call may fail at any point;
-- `StorageClient` says only that it then writes its own key or nothing. Requests run one after
-- the other: a handler that loses a race between its read and its write is not modelled. A
-- function that panics returns `panic`, which ends the execution service.
--
-- Bounds. Queue indices are 32-bit and wrap around; the theorems on the queue hold below index
-- 1684104552. The sums of the join are 32-bit and wrap around. The printing of a number runs on
-- fuel, one more than the number, which is enough since each digit divides it by ten
-- (Base.Str.parse_u32-decimal); every other loop goes through a list. A read of a file gives its
-- buffers as a list.
--
-- Not modelled: the database, JSON, UUID and URL texts, the file system, protected files, and the
-- crates ring, base64, hex and jsonwebtoken (parameters), protobuf conversions, TLS and
-- attestation, logging, the functions of machine learning, the interpreter of MesaPy, and the
-- service for access control, which is an interpreted policy.
-- The database thread of the authentication service answers every call. Error texts leave out
-- the file name that some of them end in. Maps and sets keep one entry per key in some order,
-- which is the order of iteration.
pub mod Base
pub mod Types
pub mod Storage
pub mod Management
pub mod Scheduler
pub mod Authentication
pub mod System
pub mod Frontend
pub mod Rpc
pub mod Functions
pub mod Execution
pub mod Examples
