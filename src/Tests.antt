-- ===== src/Tests.antt =====
-- Concrete runs, and the theorems at concrete inputs.
mod Attempts
mod Chats
mod Clients
mod Conversations
mod Files
mod Races
mod Replies
mod Scripts
mod Stream
mod Peers
