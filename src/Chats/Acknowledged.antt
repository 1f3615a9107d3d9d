-- ===== src/Chats/Acknowledged.antt =====
-- Which messages a chat channel reports as acknowledged
-- (src/libtego/source/protocol/ChatChannel.cpp).
use ricochet_irc.Prelude.{
  ℕ, ◌≡◌, Bool, true, false, not, ◌||◌, List, [], ◌∷◌, Option, none, some, All, ◌==◌, length, take,
  arith, if_both, if_cases, option_both, ==_refl,
}
use ricochet_irc.Connection.State.{Direction, is_inbound}
use ricochet_irc.Chats.Channel.{
  Chat, ChatPacket, ChatMessage, ChatSignal, ChatEvent, Encoding, Units, receives, sends,
  message_received, message_acknowledged, new_chat, is_pending, insert_pending, remove_pending,
  chat_packet, delta_of, send_text, send_chat_message, refuses_text, acknowledge_message,
  acknowledge_packet, handle_chat_message, acknowledge_id, handle_chat_acknowledge, receive_packet,
  step, run, chat_message_max, age_of, id_of,
}

abbrev pub has_id : ℕ → Option ℕ → Bool
has_id id none = false
has_id id (some n) = n == id

abbrev pub is_message : ℕ → ChatPacket → Bool
is_message id p = elim p.chat_message [ none ↦ false | some m ↦ has_id id m.message_id ]

-- A message with this identifier is among the packets.
abbrev pub is_sent : ℕ → List ChatPacket → Bool
is_sent id [] = false
is_sent id (p ∷ ps) = is_message id p || is_sent id ps

-- The identifier that a signal acknowledges was sent.
abbrev pub IsAnswer : List ChatPacket → ChatSignal → Type 0
IsAnswer sent (message_received text age id) = Unit {0}
IsAnswer sent (message_acknowledged id accepted) = is_sent id sent ≡ true

record Answers (c : Chat) : Type 0 where
  pending : All (λ id. is_sent id c.sent ≡ true) c.pending_messages
  answered : All (IsAnswer c.sent) c.signals

sent_more :
    (id : ℕ) (p : ChatPacket) (ps : List ChatPacket)
    → is_sent id ps ≡ true
    → is_sent id (p ∷ ps) ≡ true
sent_more id p ps e = ground arith

pending_more :
    (p : ChatPacket) (ps : List ChatPacket) (ids : List ℕ)
    → All (λ id. is_sent id ps ≡ true) ids
    → All (λ id. is_sent id (p ∷ ps) ≡ true) ids
pending_more p ps [] h = tt
pending_more p ps (id ∷ ids) h = (sent_more id p ps h.0, pending_more p ps ids h.1)

answered_more :
    (p : ChatPacket) (ps : List ChatPacket) (signals : List ChatSignal)
    → All (IsAnswer ps) signals
    → All (IsAnswer (p ∷ ps)) signals
answered_more p ps [] h = tt
answered_more p ps (message_received text age id ∷ signals) h = (tt, answered_more p ps signals h.1)
answered_more p ps (message_acknowledged id b ∷ signals) h =
    (sent_more id p ps h.0, answered_more p ps signals h.1)

sent-Answers : (p : ChatPacket) (c : Chat) → Answers c → Answers (record c { sent = p ∷ c.sent })
sent-Answers p c a = record {
  pending = pending_more p c.sent c.pending_messages a.pending;
  answered = answered_more p c.sent c.signals a.answered;
}

removed : (P : ℕ → Type 0) (id : ℕ) (ids : List ℕ) → All P ids → All P (remove_pending id ids)
unfolding remove_pending
removed P id [] h = tt
removed P id (x ∷ ids) h =
    if_both (All P) (x == id) _ _ (removed P id ids h.1) (h.0, removed P id ids h.1)

pending_sent :
    (id : ℕ) (ids : List ℕ) (sent : List ChatPacket)
    → All (λ i. is_sent i sent ≡ true) ids
    → is_pending id ids ≡ true
    → is_sent id sent ≡ true
unfolding is_pending
pending_sent id [] sent h e = absurd (cc)
pending_sent id (x ∷ ids) sent h e =
    ground (arith, h.0, λ (e' : is_pending id ids ≡ true). pending_sent id ids sent h.1 e')

acknowledge_id-Answers :
    (id : ℕ) (b : Bool) (c : Chat) → Answers c → Answers (acknowledge_id id b c)
unfolding acknowledge_id
acknowledge_id-Answers id b c a =
    if_cases Answers (is_pending id c.pending_messages) _ _
      (λ e. record {
        pending = removed (λ i. is_sent i c.sent ≡ true) id c.pending_messages a.pending;
        answered = (pending_sent id c.pending_messages c.sent a.pending e, a.answered);
      })
      (λ _. a)

acknowledge_message-Answers :
    (w : Bool) (id : Option ℕ) (b : Bool) (c : Chat)
    → Answers c
    → Answers (acknowledge_message w id b c)
acknowledge_message-Answers w none b c a = a
acknowledge_message-Answers w (some id) b c a =
    if_both Answers w _ _ (sent-Answers (acknowledge_packet id b) c a) a

received-Answers :
    (text : Units) (age id : ℕ) (c : Chat)
    → Answers c
    → Answers (record c { signals = message_received text age id ∷ c.signals })
received-Answers text age id c a = record { pending = a.pending; answered = (tt, a.answered) }

handle_chat_message-Answers :
    (encoding : Encoding) (w : Bool) (m : ChatMessage) (c : Chat)
    → Answers c
    → Answers (handle_chat_message encoding w m c)
unfolding handle_chat_message
handle_chat_message-Answers encoding w m c a =
    let text = encoding.from_utf8 m.message_text in
    if_both Answers (refuses_text text c) _ _ (acknowledge_message-Answers w m.message_id false c a)
      (acknowledge_message-Answers w m.message_id true _
        (received-Answers text (age_of m.time_delta) (id_of m.message_id) c a))

closed-Answers : (c : Chat) → Answers c → Answers (record c { is_closing = true })
closed-Answers c a = record { pending = a.pending; answered = a.answered }

receive_packet-Answers :
    (encoding : Encoding) (w : Bool) (p : Option ChatPacket) (c : Chat)
    → Answers c
    → Answers (receive_packet encoding w p c)
unfolding receive_packet handle_chat_acknowledge
receive_packet-Answers encoding w none c a = closed-Answers c a
receive_packet-Answers encoding w (some p) c a =
    option_both Answers p.chat_message _ _
      (option_both Answers p.chat_acknowledge _ _ (closed-Answers c a) (λ m _.
        if_both Answers (is_inbound c.direction) _ _ (closed-Answers c a) (
          option_both Answers m.message_id _ _ (closed-Answers c a)
            (λ id _. acknowledge_id-Answers id m.accepted c a))))
      (λ m _. handle_chat_message-Answers encoding w m c a)

inserted :
    (P : ℕ → Type 0) (id : ℕ) (ids : List ℕ) → P id → All P ids → All P (insert_pending id ids)
unfolding insert_pending
inserted P id ids p h = if_both (All P) (is_pending id ids) _ _ h (p, h)

-- The same, for a call with a Boolean result.
abbrev AnswersFirst : Chat × Bool → Type 0
AnswersFirst r = Answers r.0

send_text-Answers :
    (encoding : Encoding) (w : Bool) (text : Units) (age : Option ℕ) (id : ℕ) (c : Chat)
    → Answers c
    → AnswersFirst (send_text encoding w text age id c)
unfolding send_text
send_text-Answers encoding w text age id c a =
    let m : ChatMessage = record {
      message_text = encoding.to_utf8 text;
      message_id = some id;
      time_delta = delta_of age;
    } in
    let grown = sent-Answers (chat_packet m) c a in
    if_both AnswersFirst (not w) _ _ a (record {
      pending =
          inserted (λ i. is_sent i (chat_packet m ∷ c.sent) ≡ true) id c.pending_messages
            (ground (arith, ==_refl id)) grown.pending;
      answered = grown.answered;
    })

step-Answers :
    (encoding : Encoding) (w : Bool) (e : ChatEvent) (c : Chat)
    → Answers c
    → Answers (step encoding w e c)
unfolding step send_chat_message
step-Answers encoding w (receives p) c a = receive_packet-Answers encoding w p c a
step-Answers encoding w (sends text age id) c a =
    if_both AnswersFirst (is_inbound c.direction) _ _ a (
      if_both AnswersFirst (length text == 0) _ _ a
        (send_text-Answers encoding w (take chat_message_max text) age id c a))

run-Answers :
    (encoding : Encoding) (es : List (Bool × ChatEvent)) (c : Chat)
    → Answers c
    → Answers (run encoding es c)
unfolding run
run-Answers encoding [] c a = a
run-Answers encoding ((w, e) ∷ es) c a =
    run-Answers encoding es (step encoding w e c) (step-Answers encoding w e c a)

-- After any history of packets and calls, every message that the channel has reported as
-- acknowledged, and every one that is pending, has an identifier that a sent message carries.
pub acknowledged_were_sent :
    (encoding : Encoding) (direction : Direction) (es : List (Bool × ChatEvent))
    → let c = run encoding es (new_chat direction) in
      All (IsAnswer c.sent) c.signals × All (λ id. is_sent id c.sent ≡ true) c.pending_messages
acknowledged_were_sent encoding direction es =
    let a = run-Answers encoding es (new_chat direction) (record { pending = tt; answered = tt }) in
    (a.answered, a.pending)
