-- ===== src/Chat.antt =====
-- The chat server: servers/ChatServer.
pub mod Frame
pub mod Session
pub mod Sender
pub mod Server
pub mod Logic
pub mod Delivery
pub mod Registry
