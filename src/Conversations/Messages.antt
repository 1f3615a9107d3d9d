-- ===== src/Conversations/Messages.antt =====
-- The messages of a conversation (src/libtego/source/core/ConversationModel.cpp,
-- ConversationModel.h). The times of messages and the hashes of files are left out.
use ricochet_irc.Prelude.{
  ℕ, zero, suc, ◌+◌, ◌%◌, Bool, true, false, not, ◌&&◌, List, [], ◌∷◌, ◌++◌, map, Option, none,
  some, if◌then◌else◌, ltb, leb, ◌==◌, length, take, drop, same,
}
use ricochet_irc.Connection.State.{Text}

pub data MessageStatus : Type 0 where
  received queued sending delivered error : MessageStatus

pub data MessageType : Type 0 where
  message file : MessageType

-- `handed` counts the calls of a channel with the message, which the source does not keep.
pub record MessageData : Type 0 where
  pub type : MessageType
  pub text : Text
  pub identifier : ℕ
  pub status : MessageStatus
  pub attempt_count : ℕ
  pub handed : ℕ

-- `messages` are newest first, as the model shows them.
pub record Conversation : Type 0 where
  pub messages : List MessageData
  pub unread_count : ℕ
  pub last_message_id : ℕ

-- What the contact's connection offers: are the outbound channels there and opened, and does a
-- channel take a message? `sendChatMessageWithId` and `sendFileWithId` answer that.
pub record Channels : Type 0 where
  pub has_connection : Bool
  pub is_opened : MessageType → Bool
  pub takes : MessageData → Bool

abbrev message_id_modulus : ℕ
message_id_modulus = 18446744073709551616

abbrev pub history_limit : ℕ
history_limit = 1000

abbrev pub is_delivered : MessageStatus → Bool
is_delivered delivered = true
is_delivered _ = false

abbrev pub is_queued : MessageStatus → Bool
is_queued queued = true
is_queued _ = false

abbrev pub is_sending : MessageStatus → Bool
is_sending sending = true
is_sending _ = false

abbrev pub is_received : MessageStatus → Bool
is_received received = true
is_received _ = false

-- The counter is a `quint8`.
abbrev pub attempt : Channels → MessageData → MessageData
attempt ch m = record m {
  status = if ch.takes m then sending else error;
  attempt_count = (m.attempt_count + 1) % 256;
  handed = m.handed + 1;
}

unfoldable pub prune : List MessageData → List MessageData
prune ms = if ltb history_limit (length ms) then take history_limit ms else ms

abbrev new_message : MessageType → Text → ℕ → MessageData
new_message type text id = record {
  type = type;
  text = text;
  identifier = id;
  status = queued;
  attempt_count = 0;
  handed = 0;
}

-- `sendMessage`, and `sendFile` of a file that opens, behind their guards.
unfoldable pub enqueue : Channels → MessageType → Text → Conversation → Conversation
enqueue ch type text c =
    let m = new_message type text c.last_message_id in
    let m' = if ch.has_connection && ch.is_opened type then attempt ch m else m in
    record c {
      messages = prune (m' ∷ c.messages);
      last_message_id = (c.last_message_id + 1) % message_id_modulus;
    }

-- With the identifier that is returned.
unfoldable pub send_message : Channels → Text → Conversation → Conversation × ℕ
send_message ch [] c = (c, 0)
send_message ch (x ∷ xs) c = (enqueue ch message (x ∷ xs) c, c.last_message_id)

-- One message of the loop of `sendQueuedMessages`.
unfoldable pub send_queued : Channels → MessageData → MessageData
send_queued ch m = if is_queued m.status && ch.is_opened m.type then attempt ch m else m

unfoldable pub send_queued_messages : Channels → Conversation → Conversation
send_queued_messages ch c =
    if not ch.has_connection then c else record c { messages = map (send_queued ch) c.messages }

-- The first five messages are searched, up to one that is delivered.
unfoldable pub is_duplicate : ℕ → ℕ → Text → List MessageData → Bool
is_duplicate zero id text ms = false
is_duplicate (suc n) id text [] = false
is_duplicate (suc n) id text (m ∷ ms) =
    let rest = is_duplicate n id text ms in
    if is_delivered m.status
    then false
    else if (m.identifier == id) && same m.text text
    then true
    else rest

-- The row of the first of those messages that is not on its way.
unfoldable pub first_settled : ℕ → List MessageData → Option ℕ
first_settled zero ms = none
first_settled (suc n) [] = none
first_settled (suc n) (m ∷ ms) =
    let rest = first_settled n ms in
    if not (is_sending m.status) && not (is_queued m.status)
    then some 0
    else elim rest [ none ↦ none | some i ↦ some (suc i) ]

abbrev pub row_of : List MessageData → ℕ
row_of ms = elim (first_settled 5 ms) [ none ↦ 0 | some i ↦ i ]

abbrev pub insert_at : ℕ → MessageData → List MessageData → List MessageData
insert_at row m ms = take row ms ++ m ∷ drop row ms

abbrev pub incoming : ℕ → Text → MessageData
incoming id text = record {
  type = message;
  text = text;
  identifier = id;
  status = received;
  attempt_count = 0;
  handed = 0;
}

unfoldable pub message_received : ℕ → Text → Conversation → Conversation
message_received id text c = if is_duplicate 5 id text c.messages then c else record c {
  messages = prune (insert_at (row_of c.messages) (incoming id text) c.messages);
  unread_count = c.unread_count + 1;
}

-- `indexOfIdentifier` of an outgoing message, and its new status.
unfoldable pub acknowledge_first : ℕ → Bool → List MessageData → List MessageData
acknowledge_first id accepted [] = []
acknowledge_first id accepted (m ∷ ms) =
    let rest = acknowledge_first id accepted ms in
    if (m.identifier == id) && not (is_received m.status)
    then record m { status = if accepted then delivered else error } ∷ ms
    else m ∷ rest

-- `messageAcknowledged`, and `onFileTransferAcknowledged` alike.
abbrev pub message_acknowledged : ℕ → Bool → Conversation → Conversation
message_acknowledged id accepted c = record c {
  messages = acknowledge_first id accepted c.messages;
}

unfoldable pub requeue : MessageData → MessageData
requeue m =
    if not (is_sending m.status)
    then m
    else if leb 2 m.attempt_count
    then record m { status = error }
    else record m { status = queued }

-- The messages that are queued again are sent by a call of `sendQueuedMessages` of its own.
abbrev pub outbound_channel_closed : Conversation → Conversation
outbound_channel_closed c = record c { messages = map requeue c.messages }

unfoldable pub erase_first : ℕ → List MessageData → List MessageData
erase_first id [] = []
erase_first id (m ∷ ms) =
    let rest = erase_first id ms in if m.identifier == id then ms else m ∷ rest

-- `cancelTransfer`, which touches the messages only without a connection.
abbrev pub cancel_transfer : Channels → ℕ → Conversation → Conversation
cancel_transfer ch id c =
    if ch.has_connection then c else record c { messages = erase_first id c.messages }

pub data Event : Type 0 where
  sends sends_file : Channels → Text → Event
  sends_queued : Channels → Event
  receives : ℕ → Text → Event
  acknowledges : ℕ → Bool → Event
  closes reads clears : Event
  cancels : Channels → ℕ → Event

unfoldable pub step : Event → Conversation → Conversation
step (sends ch text) c = (send_message ch text c).0
step (sends_file ch name) c = enqueue ch file name c
step (sends_queued ch) c = send_queued_messages ch c
step (receives id text) c = message_received id text c
step (acknowledges id accepted) c = message_acknowledged id accepted c
step closes c = outbound_channel_closed c
step reads c = record c { unread_count = 0 }
step clears c = record c { messages = []; unread_count = 0 }
step (cancels ch id) c = cancel_transfer ch id c

unfoldable pub run : List Event → Conversation → Conversation
run [] c = c
run (e ∷ es) c = run es (step e c)

abbrev pub new_conversation : ℕ → Conversation
new_conversation id = record { messages = []; unread_count = 0; last_message_id = id }
