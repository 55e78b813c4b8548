-- ===== src/Session.antt =====
-- engine/session_manager.py: sessions of jobs, their checkpoints, and resumption after a crash. `J`
-- is the type of plain data and `D` that of what a job's dictionary holds besides the job id and
-- the status. Times are whole seconds. The directory of manifests is a list of files by session id,
-- that of a session's checkpoints a list of files by checkpoint id, each with its time of
-- modification and its content, which is none where the text cannot be parsed; writing and
-- unlinking do not fail. Parameters: `asdict` of the dataclasses, and `chk_id`, which formats the
-- id of a checkpoint from the time.
pub mod Files
pub mod Records
pub mod Manager
pub mod Jobs
pub mod Resumption
pub mod Counts
pub mod Checkpoints
pub mod Recovery
pub mod Cleanup
