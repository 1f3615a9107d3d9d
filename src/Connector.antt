-- ===== src/Connector.antt =====
-- An attempt to connect to a contact: `OutboundConnector` and its private object
-- (src/libtego/source/protocol/OutboundConnector.cpp), and the pauses of its socket
-- (src/libtego/source/tor/TorSocket.cpp).
pub mod Status
pub mod Attempt
pub mod Consistent
pub mod Retry
pub mod Pauses
