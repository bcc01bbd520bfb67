-- ===== src/Protocol.antt =====
-- Package protocol: the frames of messages, and the reader and writer that they go through.
pub mod Wire
pub mod Stream
pub mod Decoder
