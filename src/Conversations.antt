-- ===== src/Conversations.antt =====
-- The conversation with a contact (src/libtego/source/core/ConversationModel.cpp).
pub mod Messages
pub mod Bounds
pub mod Duplicates
