-- ===== src/Worker.antt =====
-- The decisions of the worker's steps and of the API's lifecycle services, which are pure: what is
-- queued again, what is scheduled, what is removed from the graph and what an update touches.
pub mod Requeue
pub mod Updates
pub mod Schedules
pub mod Graph
