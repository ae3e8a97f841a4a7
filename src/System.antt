-- ===== src/System.antt =====
-- The services as one system: what a request may do to the stored tasks.
pub mod Step
pub mod Access
pub mod ManagementFiles
pub mod ManagementTasks
pub mod SchedulerSteps
pub mod Later
pub mod Answers
pub mod Added
pub mod Assigned
pub mod Ends
pub mod StateAnswer
pub mod TaskAnswers
pub mod FileAnswers
pub mod SchedulerAnswers
pub mod Reach
pub mod Rounds
pub mod Authenticated
pub mod Failing
