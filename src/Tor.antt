-- ===== src/Tor.antt =====
-- The control connection to Tor (src/libtego/source/tor, src/libtego/source/utils/StringUtil.cpp).
pub mod Quoting
pub mod Replies
