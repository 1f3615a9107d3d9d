-- ===== src/Lib.antt =====
-- The peer-to-peer protocol of Ricochet Refresh (src/libtego/source/protocol), which the IRC gateway
-- and the desktop application run on; the contacts and conversations above it
-- (src/libtego/source/core) and the control connection to Tor below it (src/libtego/source/tor); the
-- gateway itself (src/irc); and the scripts of the desktop application (src/ricochet-refresh/ui).
--
-- Two peers speak over one TCP connection through Tor. The client writes an introduction with the
-- versions it knows, the server answers with its choice, and from then on both write packets: a
-- size, a channel number and a payload. Channel 0 is the control channel, on which either side asks
-- to open others. A server learns who its peer is through an authentication channel, whose proof
-- is a signature over two random cookies; a connection that is authenticated and belongs to a
-- contact may open chat and file channels, and one that is not may ask to become a contact.
-- A contact keeps one connection: it takes those that its connector makes, with retries through
-- Tor, and those that reach the identity, and decides between two. A conversation sends its
-- messages and files on the channels of that connection, and again when they were lost.
-- The gateway is an IRC server for one user: who logs in sees the contacts in a control channel,
-- writes commands there, and private messages to the contacts, which leave as those of a
-- conversation.
--
-- The parts, and where each is modelled:
--   Prelude      tests on numbers, lists, association lists, the identifiers of protobuf
--   Wire         Connection.cpp below the channels. Wire/Frame: the header that writePacket writes
--                and socketReadable reads. Wire/Handshake: setSocket and the first half of
--                socketReadable. Wire/Reader: the loop of socketReadable on the buffered bytes,
--                over the interface Session, and its theorems on pieces (Chunks), delivery
--                (Delivery) and invariants (Invariance).
--   Connection   the connection behind that interface. Connection/State: Connection_p.h and
--                Channel_p.h, purpose and authentication. Connection/Channels: writePacket, close,
--                the channel table, Channel::closeChannel. Connection/Ids: the choice and the check
--                of channel identifiers. Connection/Requests: the requests that the subclasses of
--                Channel allow. Connection/Control: ControlChannel.cpp with openChannelInbound and
--                openChannelResult of Channel.cpp. Connection/Auth: AuthHiddenServiceChannel.cpp
--                and the slot of UserIdentity.cpp. Connection/Events: construction, the dispatch of
--                packets, and the step of each event. Connection/Soundness: the invariant.
--                Connection/Closing: the disconnection. Connection/Serving: the connection as a
--                Session, fed with bytes.
--   Files        FileChannel.cpp. Files/Messages: FileChannel.proto and verifyPacket.
--                Files/Transfers: the records of FileChannel.h and emitFatalError. Files/Sending
--                and Files/Receiving: the packets and calls of either side. Files/Channel:
--                receivePacket and the rest. Files/Saved: the files moved to their destination.
--                Files/Rounds: a chunk from one channel to the other. Files/Refusal: a header that
--                is refused. Files/Exchange: two channels that exchange their packets, turn by turn
--                (Turns), until a file has arrived (Arrival), from its offer on (Offer).
--   Chats        ChatChannel.cpp. Chats/Channel: messages and acknowledgements.
--                Chats/Acknowledged: its theorem. Files and Chats model their channels by
--                themselves: in Connection they are the parameter reply_data.
--   Connector    OutboundConnector.cpp, which makes the connection to a contact.
--                Connector/Status: its state, setStatus, abort and setError. Connector/Attempt:
--                its calls and slots, and the step of each event. Connector/Consistent: socket and
--                connection in each status, with the operations (Operations) and any history
--                (Histories). Connector/Retry: the retry behind an error. Connector/Pauses:
--                TorSocket.cpp, whose timer Bounds is about.
--   Contacts     ContactUser.cpp and OutgoingContactRequest.cpp. Contacts/User: the state, the status,
--                the outgoing socket, which is a Connector, onConnected, and the acceptance of a request.
--                Contacts/Assignment: assignConnection, on the connections of Connection.
--                Contacts/Order: the order of host names. Contacts/Race: two peers that connect to
--                each other at the same time, which connection a side keeps (Sides) in which order
--                (Orders), and what they agree on (Agreement). Contacts/Holding:
--                what a contact's connection has shown, when it is taken (Assigning) and behind any
--                history (Histories); Contacts/Unchanged: what closing leaves. Contacts/Identifiers:
--                ContactIDValidator.cpp.
--   Conversations ConversationModel.cpp. Conversations/Messages: the messages and what changes them,
--                with the channels as a parameter. Conversations/Bounds: how often a message is tried.
--                Conversations/Duplicates: a message that arrives twice.
--   Tor          the control connection. Tor/Replies: TorControlSocket.cpp line by line, with what Tor
--                answers (Answers) and who is told of it (Delivery). Tor/Quoting: StringUtil.cpp, with
--                lists of quoted strings (Splitting).
--   Irc          the IRC server under src/irc, which stands between an IRC client and the contacts.
--                Irc/Texts: names, lists of words and the templates of QString::arg. Irc/State: users,
--                connections, channels, and what the server does to the world. Irc/Channels:
--                IrcChannel.cpp, and what IrcServer.cpp relays. Irc/Users: what a connection keeps, with the
--                virtual methods of IrcServer as the record Hooks. Irc/Lines: its lines
--                (IrcConnection.cpp). Irc/Control, Irc/Commands and Irc/Slots:
--                RicochetIrcServer.cpp, which fills Hooks. Irc/Events: the step of each event.
--                Irc/Evolution: what the operations leave as it is (Relay, Control, Commands, Slots).
--                Irc/Handling: a property that the parts keep is kept by a line (Lines); Ricochet shows
--                what it asks of the hooks. Irc/Admission: who has sent the password and the names,
--                line by line (Lines) and over any history (Histories). Irc/Nicknames: no nickname
--                twice (Histories). Irc/Alone: the end of the other clients at a login.
--   Ui           the scripts under src/ricochet-refresh/ui. Ui/Escape: utils.js, whose result OnePass
--                compares with one pass, Decoding turns back, and Markup puts into a rich text.
--                Ui/Windows: ContactWindow.js, with the functions it connects to a window (Handlers),
--                who shares a window (Sharing), the abstract table of windows (Spec) and that the
--                script implements it (Refinement).
--   Tests        concrete runs
--
-- State and operations. A connection is the record Conn: each handler takes it and gives it back,
-- with the packets written and the signals emitted as two logs in it. A channel is an entry of the
-- table under its number; the object behind it is that entry. The handlers have the source's
-- names in lower case: handle_open_channel is ControlChannel::handleOpenChannel. A call that is
-- queued for the event loop (closeChannel, the timers) is an event of its own, so it may come at
-- any later time. Signals to the rest of the program are answered by the record Env, which also has
-- the random numbers, OpenSSL's verification, the Unicode categories and protobuf.
--
-- Bounds. A byte is a number below 256 and a unit of a text one below 65536; lengths and channel
-- numbers are natural numbers with the limits of the 16-bit fields written out. The reading loop
-- runs on fuel, and the length of the buffer is enough, since each packet takes its header off it.
-- The exchange of two file channels runs on fuel too, where one turn more than the file has bytes
-- is enough. The search for an identifier has the source's own limit of 100 rounds.
--
-- A file channel runs as in a release build, which goes on behind a Q_ASSERT that fails: those on the
-- direction, on the size of a file and on the bytes left are recorded in has_failed_assertion. The
-- file system is the record Disk, and SHA3-512 is any function. A message of a conversation has one
-- field more than in the source, handed, the calls of a channel with it.
--
-- On the IRC server the connections are kept for ever, as in the source, which deletes none before
-- the end; a reading is one event for each line, with the end of the socket possible between two.
-- QRegularExpression on a whole line, the shims of the contacts and what they answer are parameters
-- or events; the order of a QHash is that of a list, and no theorem is about it.
--
-- Not modelled: the lifetime of Qt objects; the socket's own buffers, whose writes are taken to
-- succeed while it is connected; cryptography, protobuf and Tor, which are parameters; the contact
-- list, of a contact the rejection of a request and what its sending does to the connection, the times and rows of a
-- conversation, the commands of the Tor control connection, and of the user
-- interfaces all but the scripts; the slots of others on the signals of an outbound connector; in
-- the socket of an attempt the proxy, setMaxAttemptInterval, which nothing calls, and an overflow
-- of the number of attempts, an int; the lookup of a property on the prototype of the object
-- windows, which no key of a contact reaches.
pub mod Prelude
pub mod Wire
pub mod Connection
pub mod Files
pub mod Chats
pub mod Ui
pub mod Connector
pub mod Contacts
pub mod Conversations
pub mod Tor
pub mod Irc
pub mod Tests
