-- ===== src/Execution.antt =====
-- Running a task (services/execution, worker, executor and runtime, with types/src/staged_file.rs
-- and staged_function.rs): the files it is given, the executor it runs on, and what is reported.
pub mod Platform
pub mod StagedFile
pub mod Paths
pub mod Files
pub mod Worker
pub mod Service
pub mod Uploads
pub mod Context
pub mod Registry
pub mod Changes
pub mod Handles
