-- ===== src/Client.antt =====
-- Package client: dispatch of messages, the life of a client, and the pace of its dials.
pub mod Dispatch
pub mod Lifecycle
pub mod Running
pub mod Pace
