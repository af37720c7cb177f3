-- ===== src/Queue.antt =====
-- The events queue: src/modules/events/queue.
pub mod Producer
pub mod Handler
pub mod Consumer
pub mod NotLost
pub mod Errors
