-- ===== src/Server.antt =====
-- Package server: dispatch of messages to handlers, and the accept loops with their limit.
pub mod Handling
pub mod Dispatch
pub mod Accept
pub mod Running
