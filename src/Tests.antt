-- ===== src/Tests.antt =====
-- Runs of the code at concrete inputs.
mod Protocol
mod Stats
mod Connection
mod Server
mod Client
mod Running
mod Serving
mod Examples
mod WebSocket
mod Tcp
mod TestTcp
mod Chat
