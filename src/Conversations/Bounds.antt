-- ===== src/Conversations/Bounds.antt =====
-- How often a message is tried, and how many are kept
-- (src/libtego/source/core/ConversationModel.cpp).
use ricochet_irc.Prelude.{
  ℕ, zero, suc, ◌+◌, ◌%◌, ◌≤◌, ◌≡◌, refl, ap, Bool, true, false, not, ◌&&◌, List, [], ◌∷◌, map,
  if◌then◌else◌, ltb, leb, ◌==◌, length, length-take, take, drop, arith, All, All-append, if_cases,
  if_both,
}
use ricochet_irc.Connection.State.{Text}
use ricochet_irc.Conversations.Messages.{
  MessageStatus, MessageType, message, file, MessageData, Conversation, Channels, received, queued,
  sending, delivered, error, is_queued, is_sending, is_received, attempt, enqueue, send_message,
  send_queued, send_queued_messages, requeue, acknowledge_first, erase_first, is_duplicate, row_of,
  insert_at, incoming, prune, history_limit, message_received, Event, sends, sends_file,
  sends_queued, receives, acknowledges, closes, reads, clears, cancels, step, run, new_conversation,
}

-- The calls of a channel that a message in this status may have behind it.
abbrev pub tries : MessageStatus → ℕ
tries received = 0
tries queued = 1
tries sending = 2
tries delivered = 2
tries error = 2

abbrev pub IsTried : MessageData → Type 0
IsTried m = (m.attempt_count ≡ m.handed) × (m.handed ≤ tries m.status)

tries_at_most : (s : MessageStatus) → tries s ≤ 2
tries_at_most s = ground arith

one_more : (n h : ℕ) → n ≡ h → h ≤ 1 → (n + 1) % 256 ≡ h + 1
one_more n h e l = ground arith

attempt-IsTried :
    (ch : Channels) (m : MessageData)
    → m.attempt_count ≡ m.handed
    → m.handed ≤ 1
    → IsTried (attempt ch m)
attempt-IsTried ch m e h = (
  one_more m.attempt_count m.handed e h,
  if_both (λ s. m.handed + 1 ≤ tries s) (ch.takes m) _ _ (omega arith) (omega arith),
)

send_queued-IsTried : (ch : Channels) (m : MessageData) → IsTried m → IsTried (send_queued ch m)
unfolding send_queued
send_queued-IsTried ch m h =
    if_cases IsTried (is_queued m.status && ch.is_opened m.type) _ _
      (λ e. attempt-IsTried ch m h.0 (queued_once m.status m.handed (ground arith) h.1)) (λ _. h)
  where
    queued_once : (s : MessageStatus) (n : ℕ) → is_queued s ≡ true → n ≤ tries s → n ≤ 1
    queued_once queued n e h = h
    queued_once _ n e h = absurd (cc)

requeue-IsTried : (m : MessageData) → IsTried m → IsTried (requeue m)
unfolding requeue
requeue-IsTried m h =
    let bound = tries_at_most m.status in
    if_both IsTried (not (is_sending m.status)) _ _ h (
      if_cases IsTried (leb 2 m.attempt_count) _ _ (λ _. (h.0, omega (arith, h.1, bound)))
        (λ e. (h.0, tried_once m.attempt_count m.handed h.0 e)))
  where
    tried_once : (n h : ℕ) → n ≡ h → leb 2 n ≡ false → h ≤ 1
    tried_once n h e l = ground arith

All-map :
    {A : Type 0} (P : A → Type 0) (f : A → A) (xs : List A)
    → ((x : A) → P x → P (f x))
    → All P xs
    → All P (map f xs)
All-map P f [] step h = tt
All-map P f (x ∷ xs) step h = (step x h.0, All-map P f xs step h.1)

All-take : {A : Type 0} (P : A → Type 0) (n : ℕ) (xs : List A) → All P xs → All P (take n xs)
All-take P zero xs h = tt
All-take P (suc n) [] h = tt
All-take P (suc n) (x ∷ xs) h = (h.0, All-take P n xs h.1)

All-drop : {A : Type 0} (P : A → Type 0) (n : ℕ) (xs : List A) → All P xs → All P (drop n xs)
All-drop P zero xs h = h
All-drop P (suc n) [] h = tt
All-drop P (suc n) (x ∷ xs) h = All-drop P n xs h.1

length-map : {A : Type 0} (f : A → A) (xs : List A) → length (map f xs) ≡ length xs
length-map f [] = refl
length-map f (x ∷ xs) = ap suc (length-map f xs)

-- What holds of the messages after any history.
abbrev pub IsBounded : List MessageData → Type 0
IsBounded ms = (length ms ≤ history_limit) × All IsTried ms

prune-IsBounded : (ms : List MessageData) → All IsTried ms → IsBounded (prune ms)
unfolding prune
prune-IsBounded ms h =
    if_cases IsBounded (ltb history_limit (length ms)) _ _
      (λ _. (omega (arith, length-take history_limit ms), All-take IsTried history_limit ms h))
      (λ e. (ground arith, h))

map-IsBounded :
    (f : MessageData → MessageData) (ms : List MessageData)
    → ((m : MessageData) → IsTried m → IsTried (f m))
    → IsBounded ms
    → IsBounded (map f ms)
map-IsBounded f ms keeps b = (omega (arith, length-map f ms, b.0), All-map IsTried f ms keeps b.1)

enqueue-IsBounded :
    (ch : Channels) (type : MessageType) (text : Text) (c : Conversation)
    → IsBounded c.messages
    → IsBounded (enqueue ch type text c).messages
unfolding enqueue
enqueue-IsBounded ch type text c b = prune-IsBounded _ (
  if_both IsTried (ch.has_connection && ch.is_opened type) _ _
      (attempt-IsTried ch _ refl (omega arith)) (refl, omega arith),
  b.1,
)

acknowledge_first-IsBounded :
    (id : ℕ) (accepted : Bool) (ms : List MessageData)
    → (length (acknowledge_first id accepted ms) ≡ length ms)
      × (All IsTried ms → All IsTried (acknowledge_first id accepted ms))
unfolding acknowledge_first
acknowledge_first-IsBounded id accepted [] = (refl, λ h. h)
acknowledge_first-IsBounded id accepted (m ∷ ms) =
    let (len, keeps) = acknowledge_first-IsBounded id accepted ms in
    (
      if_both (λ (l : List MessageData). length l ≡ suc (length ms))
          ((m.identifier == id) && not (is_received m.status))
          (record m { status = if accepted then delivered else error } ∷ ms)
          (m ∷ acknowledge_first id accepted ms) refl (ap suc len),
      λ h.
          if_both (All IsTried) ((m.identifier == id) && not (is_received m.status))
            (record m { status = if accepted then delivered else error } ∷ ms)
            (m ∷ acknowledge_first id accepted ms) (settled m accepted h.0, h.1) (h.0, keeps h.1),
    )
  where
    settled :
        (m : MessageData) (accepted : Bool)
        → IsTried m
        → IsTried (record m { status = if accepted then delivered else error })
    settled m true h = (h.0, omega (arith, h.1, tries_at_most m.status))
    settled m false h = (h.0, omega (arith, h.1, tries_at_most m.status))

erase_first-IsBounded :
    (id : ℕ) (ms : List MessageData)
    → (length (erase_first id ms) ≤ length ms) × (All IsTried ms → All IsTried (erase_first id ms))
unfolding erase_first
erase_first-IsBounded id [] = (omega arith, λ h. h)
erase_first-IsBounded id (m ∷ ms) =
    let (len, keeps) = erase_first-IsBounded id ms in
    (
      if_both (λ (l : List MessageData). length l ≤ suc (length ms)) (m.identifier == id) ms
          (m ∷ erase_first id ms) (omega arith) (omega (arith, len)),
      λ h.
          if_both (All IsTried) (m.identifier == id) ms (m ∷ erase_first id ms) h.1
            (h.0, keeps h.1),
    )

message_received-IsBounded :
    (id : ℕ) (text : Text) (c : Conversation)
    → IsBounded c.messages
    → IsBounded (message_received id text c).messages
unfolding message_received
message_received-IsBounded id text c b =
    if_both (λ (d : Conversation). IsBounded d.messages) (is_duplicate 5 id text c.messages) c _ b
      (prune-IsBounded (insert_at (row_of c.messages) (incoming id text) c.messages) (
        All-append IsTried (take (row_of c.messages) c.messages) _
          (All-take IsTried (row_of c.messages) c.messages b.1)
          ((refl, omega arith), All-drop IsTried (row_of c.messages) c.messages b.1)))

step-IsBounded :
    (e : Event) (c : Conversation) → IsBounded c.messages → IsBounded (step e c).messages
unfolding step send_message send_queued_messages
step-IsBounded (sends ch []) c b = b
step-IsBounded (sends ch (x ∷ xs)) c b = enqueue-IsBounded ch message (x ∷ xs) c b
step-IsBounded (sends_file ch name) c b = enqueue-IsBounded ch file name c b
step-IsBounded (sends_queued ch) c b =
    if_both (λ (d : Conversation). IsBounded d.messages) (not ch.has_connection) c
      (record c { messages = map (send_queued ch) c.messages }) b
      (map-IsBounded (send_queued ch) c.messages (send_queued-IsTried ch) b)
step-IsBounded (receives id text) c b = message_received-IsBounded id text c b
step-IsBounded (acknowledges id accepted) c b =
    let (len, keeps) = acknowledge_first-IsBounded id accepted c.messages in
    (omega (arith, len, b.0), keeps b.1)
step-IsBounded closes c b = map-IsBounded requeue c.messages requeue-IsTried b
step-IsBounded reads c b = b
step-IsBounded clears c b = (omega arith, tt)
step-IsBounded (cancels ch id) c b =
    let (len, keeps) = erase_first-IsBounded id c.messages in
    if_both (λ (d : Conversation). IsBounded d.messages) ch.has_connection c
      (record c { messages = erase_first id c.messages }) b (omega (arith, len, b.0), keeps b.1)

run-IsBounded :
    (es : List Event) (c : Conversation) → IsBounded c.messages → IsBounded (run es c).messages
unfolding run
run-IsBounded [] c b = b
run-IsBounded (e ∷ es) c b = run-IsBounded es (step e c) (step-IsBounded e c b)

-- After any history of a new conversation: it keeps at most a thousand messages; none of them was handed
-- to a channel more than twice, a queued one at most once, and a received one never, and the count of
-- its attempts is the number of these calls.
pub conversation-IsBounded :
    (id : ℕ) (es : List Event) → IsBounded (run es (new_conversation id)).messages
conversation-IsBounded id es = run-IsBounded es (new_conversation id) (omega arith, tt)
