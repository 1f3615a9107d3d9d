-- ===== src/Connection.antt =====
-- One peer-to-peer connection (src/libtego/source/protocol): its state, the channel table, the
-- control channel, and what a history of events can lead to.
pub mod State
pub mod Channels
pub mod Ids
pub mod Requests
pub mod Control
pub mod Auth
pub mod Events
pub mod Soundness
pub mod Closing
pub mod Serving
