-- ===== src/Drafts.antt =====
-- annotation_repository.py, an annotator's work on the assigned task: saving the draft and giving
-- the task back. Both go through the session's fence and replay an operation that was done before.
pub mod State
pub mod Save
pub mod Abandon
pub mod Once
pub mod Conflicts
pub mod Release
pub mod Complete
pub mod Publish
pub mod Published
pub mod Publication
mod Examples
