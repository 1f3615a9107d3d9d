-- ===== src/Chats/Channel.antt =====
-- A chat channel: messages out, acknowledgements in, and the reverse
-- (src/libtego/source/protocol/ChatChannel.cpp, ChatChannel.h, ChatChannel.proto). A text is a list
-- of UTF-16 units; its conversion to and from UTF-8 is Qt's. A point in time stands as the number
-- of seconds that it lies in the past.
use ricochet_irc.Prelude.{
  ℕ, zero, suc, Bool, true, false, not, ◌||◌, List, [], ◌∷◌, Option, none, some, if◌then◌else◌, ltb,
  ◌==◌, length, take, ℤ, pos, negsuc,
}
use ricochet_irc.Wire.Frame.{Bytes}
use ricochet_irc.Connection.State.{Direction, is_inbound}

abbrev pub Units : Type 0
Units = List ℕ

pub record ChatMessage : Type 0 where
  pub message_text : Bytes
  pub message_id : Option ℕ
  pub time_delta : Option ℤ

pub record ChatAcknowledge : Type 0 where
  pub message_id : Option ℕ
  pub accepted : Bool

pub record ChatPacket : Type 0 where
  pub chat_message : Option ChatMessage
  pub chat_acknowledge : Option ChatAcknowledge

-- `QString::toStdString` and `fromStdString`.
pub record Encoding : Type 0 where
  pub to_utf8 : Units → Bytes
  pub from_utf8 : Bytes → Units

pub data ChatSignal : Type 0 where
  -- text, age in seconds, identifier
  message_received : Units → ℕ → ℕ → ChatSignal
  message_acknowledged : ℕ → Bool → ChatSignal

-- `sent` are the packets that `sendMessage` has written, `signals` those emitted, both newest first.
pub record Chat : Type 0 where
  pub direction : Direction
  pub pending_messages : List ℕ
  pub sent : List ChatPacket
  pub signals : List ChatSignal
  pub is_closing : Bool

abbrev pub chat_message_max : ℕ
chat_message_max = 2000

abbrev pub close_chat : Chat → Chat
close_chat c = record c { is_closing = true }

abbrev pub new_chat : Direction → Chat
new_chat direction = record {
  direction = direction;
  pending_messages = [];
  sent = [];
  signals = [];
  is_closing = false;
}

unfoldable pub is_pending : ℕ → List ℕ → Bool
is_pending id [] = false
is_pending id (x ∷ xs) = (x == id) || is_pending id xs

-- `QSet::insert` and `QSet::remove`.
unfoldable pub insert_pending : ℕ → List ℕ → List ℕ
insert_pending id ids = if is_pending id ids then ids else id ∷ ids

unfoldable pub remove_pending : ℕ → List ℕ → List ℕ
remove_pending id [] = []
remove_pending id (x ∷ xs) = if x == id then remove_pending id xs else x ∷ remove_pending id xs

abbrev pub chat_packet : ChatMessage → ChatPacket
chat_packet m = record { chat_message = some m; chat_acknowledge = none }

abbrev pub acknowledge_packet : ℕ → Bool → ChatPacket
acknowledge_packet id accepted = record {
  chat_message = none;
  chat_acknowledge = some (record { message_id = some id; accepted = accepted });
}

abbrev pub delta_of : Option ℕ → Option ℤ
delta_of none = none
delta_of (some zero) = some (pos 0)
delta_of (some (suc n)) = some (negsuc n)

-- `sendMessage` of a packet, which writes it if the connection can (`writes`).
abbrev pub send_packet : Bool → ChatPacket → Chat → Chat
send_packet writes p c = if writes then record c { sent = p ∷ c.sent } else c

unfoldable pub send_text : Encoding → Bool → Units → Option ℕ → ℕ → Chat → Chat × Bool
send_text encoding writes text age id c =
    let m : ChatMessage = record {
      message_text = encoding.to_utf8 text;
      message_id = some id;
      time_delta = delta_of age;
    } in
    if not writes then (c, false) else (
      record c {
        sent = chat_packet m ∷ c.sent;
        pending_messages = insert_pending id c.pending_messages;
      },
      true,
    )

-- `sendChatMessageWithId`; `age` is `none` for a time that is null.
unfoldable pub send_chat_message : Encoding → Bool → Units → Option ℕ → ℕ → Chat → Chat × Bool
send_chat_message encoding writes text age id c =
    if is_inbound c.direction
    then (c, false)
    else if length text == 0
    then (c, false)
    else send_text encoding writes (take chat_message_max text) age id c

-- A delta into the future counts as none.
abbrev pub age_of : Option ℤ → ℕ
age_of (some (negsuc n)) = suc n
age_of _ = 0

abbrev pub id_of : Option ℕ → ℕ
id_of none = 0
id_of (some id) = id

unfoldable pub refuses_text : Units → Chat → Bool
refuses_text text c =
    not (is_inbound c.direction) || (length text == 0 || ltb chat_message_max (length text))

abbrev pub acknowledge_message : Bool → Option ℕ → Bool → Chat → Chat
acknowledge_message writes none accepted c = c
acknowledge_message writes (some id) accepted c =
    send_packet writes (acknowledge_packet id accepted) c

unfoldable pub handle_chat_message : Encoding → Bool → ChatMessage → Chat → Chat
handle_chat_message encoding writes m c =
    let text = encoding.from_utf8 m.message_text in
    if refuses_text text c
    then acknowledge_message writes m.message_id false c
    else acknowledge_message writes m.message_id true (record c {
      signals = message_received text (age_of m.time_delta) (id_of m.message_id) ∷ c.signals;
    })

unfoldable pub acknowledge_id : ℕ → Bool → Chat → Chat
acknowledge_id id accepted c =
    if is_pending id c.pending_messages
    then record c {
      pending_messages = remove_pending id c.pending_messages;
      signals = message_acknowledged id accepted ∷ c.signals;
    }
    else c

unfoldable pub handle_chat_acknowledge : ChatAcknowledge → Chat → Chat
handle_chat_acknowledge m c =
    if is_inbound c.direction
    then close_chat c
    else elim m.message_id [ none ↦ close_chat c | some id ↦ acknowledge_id id m.accepted c ]

-- `receivePacket`; `none` is a packet that does not parse.
unfoldable pub receive_packet : Encoding → Bool → Option ChatPacket → Chat → Chat
receive_packet encoding writes none c = close_chat c
receive_packet encoding writes (some p) c = elim p.chat_message [
  | some m ↦ handle_chat_message encoding writes m c
  | none ↦ elim p.chat_acknowledge [ some m ↦ handle_chat_acknowledge m c | none ↦ close_chat c ]
]

pub data ChatEvent : Type 0 where
  receives : Option ChatPacket → ChatEvent
  sends : Units → Option ℕ → ℕ → ChatEvent

unfoldable pub step : Encoding → Bool → ChatEvent → Chat → Chat
step encoding writes (receives p) c = receive_packet encoding writes p c
step encoding writes (sends text age id) c = (send_chat_message encoding writes text age id c).0

-- Each event with whether the connection can write while it is handled.
unfoldable pub run : Encoding → List (Bool × ChatEvent) → Chat → Chat
run encoding [] c = c
run encoding ((writes, e) ∷ rest) c = run encoding rest (step encoding writes e c)
