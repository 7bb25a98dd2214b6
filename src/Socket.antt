-- ===== src/Socket.antt =====
-- The socket side: reading messages from a connection's buffer.
pub mod Reader
