-- ===== src/Examples.antt =====
-- The examples that carry logic of their own: listeners, authentication, and connections over
-- WebSocket.
pub mod Text
pub mod Auth
pub mod WebSocket
pub mod Listener
pub mod Tcp
pub mod TestTcp
