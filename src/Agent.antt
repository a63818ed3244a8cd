-- ===== src/Agent.antt =====
-- The agent side of the daemon, src/agent.
pub mod Notification
pub mod Tail
pub mod Title
