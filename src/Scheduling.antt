-- ===== src/Scheduling.antt =====
-- The programming of content in time.
pub mod Selectors
pub mod Checks
pub mod Blocks
pub mod Exceptions
pub mod Assignments
pub mod Resolution
pub mod Order
pub mod Current
pub mod Ranks
pub mod Winner
pub mod Retirement
mod Tests
pub mod Coverage
pub mod Requests
pub mod Revision
pub mod Rows
pub mod Frames
pub mod BlockConflicts
pub mod ExceptionConflicts
pub mod AssignmentConflicts
