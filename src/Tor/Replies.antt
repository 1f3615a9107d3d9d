-- ===== src/Tor/Replies.antt =====
-- The replies on the control connection (src/libtego/source/tor/TorControlSocket.cpp,
-- TorControlCommand.cpp). A line ends with its only line feed, which is a part of it.
pub mod Answers
pub mod Delivery
use ricochet_irc.Prelude.{
  ℕ, suc, ◌-◌, Bool, true, false, not, ◌&&◌, ◌||◌, List, [], ◌∷◌, ◌++◌, Option, none, some, is_some,
  if◌then◌else◌, ltb, leb, ◌==◌, length, take, drop, same, ℤ, pos, negsuc,
}
use ricochet_irc.Wire.Frame.{Bytes}

-- What a command is told; a command is its number.
pub data Told : Type 0 where
  on_reply : ℕ → ℤ → Bytes → Told
  on_finished : ℕ → ℤ → Told
  on_data_line : ℕ → Bytes → Told
  on_data_finished : ℕ → Told

-- A command in the queue may be null. `told` is in the order of the calls.
pub record ControlSocket : Type 0 where
  pub command_queue : List (Option ℕ)
  pub event_commands : List (Bytes × ℕ)
  pub current_command : Option ℕ
  pub in_data_reply : Bool
  pub told : List Told
  pub has_error : Bool

abbrev pub tell : Told → ControlSocket → ControlSocket
tell t s = record s { told = s.told ++ t ∷ [] }

-- Nothing is told to a null command.
abbrev pub tell_some : Option ℕ → (ℕ → Told) → ControlSocket → ControlSocket
tell_some none f s = s
tell_some (some k) f s = tell (f k) s

abbrev pub crlf : Bytes
crlf = 13 ∷ 10 ∷ []

-- What `readLine` returns at most.
abbrev pub max_line : ℕ
max_line = 5120

abbrev pub ends_with : Bytes → Bytes → Bool
ends_with suffix s =
    leb (length suffix) (length s) && same (drop (length s - length suffix) s) suffix

abbrev pub is_event : ℤ → Bool
is_event (pos n) = leb 600 n && ltb n 700
is_event (negsuc n) = false

abbrev pub value : Bytes → List (Bytes × ℕ) → Option ℕ
value k [] = none
value k ((j, v) ∷ m) = if same j k then some v else value k m

-- The bytes before the first space, if there is one that is not the first byte.
abbrev before_space : Bytes → Option Bytes
before_space [] = none
before_space (x ∷ xs) =
    if x == b' '
    then some []
    else elim (before_space xs) [ none ↦ none | some name ↦ some (x ∷ name) ]

abbrev event_of : Bytes → List (Bytes × ℕ) → Option ℕ
event_of line events = elim (before_space line) [
  | none ↦ none
  | some name ↦ if length name == 0 then none else value name events
]

unfoldable pub clear : ControlSocket → ControlSocket
clear s = record s {
  command_queue = [];
  event_commands = [];
  in_data_reply = false;
  current_command = none;
}

-- The connection is aborted, and `clear` is the slot of its signal `disconnected`.
abbrev set_error : ControlSocket → ControlSocket
set_error s = record (clear s) { has_error = true }

abbrev byte_at : ℕ → Bytes → ℕ
byte_at n line = elim (drop n line) [ [] ↦ 0 | x ∷ xs ↦ x ]

-- A line of a data reply.
unfoldable pub data_line : Bytes → ControlSocket → ControlSocket
data_line line s =
    if same line (b'.' ∷ [])
    then (let s' =
          tell_some s.current_command on_data_finished (record s { in_data_reply = false }) in
        record s' { current_command = none })
    else tell_some s.current_command (λ k. on_data_line k line) s

-- A 6xx reply. `is_final` is a reply without further lines.
unfoldable pub event_line : ℤ → Bool → Bytes → ControlSocket → ControlSocket
event_line code is_final line s =
    let command =
      if is_some s.current_command then s.current_command else event_of line s.event_commands in
    let s' =
      tell_some command (λ k. on_reply k code line) (record s { current_command = command }) in
    if is_some command && is_final
    then record (tell_some command (λ k. on_finished k code) s') { current_command = none }
    else s'

-- A reply to the first command of the queue.
unfoldable pub reply_line : ℤ → Bool → Bool → Bytes → ControlSocket → ControlSocket
reply_line code is_final is_data line s = elim s.command_queue [
  | [] ↦ s
  | command ∷ rest ↦
      let s' = tell_some command (λ k. on_reply k code line) s in
      if is_data
      then record s' { current_command = command }
      else if is_final
      then tell_some command (λ k. on_finished k code) (record s' { command_queue = rest })
      else s'
]

-- `QByteArray::toInt` of the first three bytes is a parameter.
module _ (to_int : Bytes → ℤ) where
  unfoldable pub status_line : Bytes → ControlSocket → ControlSocket
  status_line line s =
      let code = to_int (take 3 line) in
      let type = byte_at 3 line in
      let is_final = type == b' ' in
      let is_data = type == b'+' in
      let s' = record s { in_data_reply = is_data } in
      if not is_final && (not is_data && not (type == b'-'))
      then set_error s'
      else if is_event code
      then event_line code is_final (drop 4 line) s'
      else reply_line code is_final is_data (drop 4 line) s'

  -- What `process` makes of the bytes that it has read; an error ends the connection.
  unfoldable pub process_read : Bytes → ControlSocket → ControlSocket
  process_read full s =
      let line = take (length full - 2) full in
      if not (ends_with crlf full)
      then set_error s
      else if s.in_data_reply
      then data_line line s
      else if ltb (length line) 4
      then set_error s
      else status_line line s

  -- One turn of the loop of `process`. Of a line that is too long, what is read has no end.
  abbrev pub process_line : Bytes → ControlSocket → ControlSocket
  process_line line s = process_read (take max_line line) s

  unfoldable pub process : List Bytes → ControlSocket → ControlSocket
  process [] s = s
  process (line ∷ lines) s = if s.has_error then s else process lines (process_line line s)

-- `sendCommand`; what it writes is left out.
abbrev pub send_command : Option ℕ → ControlSocket → ControlSocket
send_command command s = record s { command_queue = s.command_queue ++ command ∷ [] }
