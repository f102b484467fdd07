-- ===== src/Activity.antt =====
-- server/src/activity.rs: the activity journal and the cache of exec results.
pub mod Types
pub mod Log
pub mod Cache
