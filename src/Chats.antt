-- ===== src/Chats.antt =====
-- Chat messages over a channel of a known contact (src/libtego/source/protocol/ChatChannel.cpp).
pub mod Channel
pub mod Acknowledged
