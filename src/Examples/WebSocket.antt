-- ===== src/Examples/WebSocket.antt =====
-- examples/websocket: a connection of messages read as a stream of bytes, and its listener. Package
-- gorilla/websocket is a parameter.
pub mod Conn
pub mod Listener
pub mod Handler
