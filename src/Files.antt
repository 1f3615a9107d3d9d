-- ===== src/Files.antt =====
-- File transfers over a channel of a known contact (src/libtego/source/protocol/FileChannel.cpp).
pub mod Messages
pub mod Transfers
pub mod Sending
pub mod Receiving
pub mod Channel
pub mod Saved
pub mod Refusal
pub mod Rounds
pub mod Exchange
