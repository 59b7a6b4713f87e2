-- ===== src/JobState.antt =====
-- `AsyncJobStateRepository` of app/virtual_fitting/repositories/async_job_state.py, by parts: the
-- shared transaction, and the methods in the order of the file. Of each method that changes a row, the
-- condition and the assignments of its `UPDATE` are named, and the method joins them.
pub mod Change
pub mod Lease
pub mod Submission
pub mod Events
pub mod Postprocess
pub mod Fallback
pub mod Publication
pub mod NotAccepted
pub mod Repeats
pub mod Twice
