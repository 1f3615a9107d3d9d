-- ===== src/Irc.antt =====
-- The IRC server of the front end for IRC clients (src/irc): its texts, its state, and the classes
-- IrcChannel, IrcServer, IrcConnection and RicochetIrcServer.
pub mod Texts
pub mod State
pub mod Channels
pub mod Users
pub mod Lines
pub mod Control
pub mod Commands
pub mod Slots
pub mod Events
pub mod Evolution
pub mod Handling
pub mod Admission
pub mod Nicknames
pub mod Alone
