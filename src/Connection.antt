-- ===== src/Connection.antt =====
-- Package connection: requests, queued messages, the properties of a connection, and the manager of
-- its goroutines.
pub mod Request
pub mod MessageBody
pub mod Account
pub mod Properties
pub mod ReadLoop
pub mod State
pub mod Manager
pub mod Transfer
pub mod Shutdown
