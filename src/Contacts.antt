-- ===== src/Contacts.antt =====
-- A contact of an identity: its connection, its outgoing socket and its request
-- (src/libtego/source/core/ContactUser.cpp, OutgoingContactRequest.cpp).
pub mod User
pub mod Assignment
pub mod Order
pub mod Race
pub mod Unchanged
pub mod Holding
pub mod Identifiers
