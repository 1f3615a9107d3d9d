-- ===== src/Connection/Events.antt =====
-- A connection as its environment drives it: construction (`ConnectionPrivate::setSocket`), the
-- packet dispatch of `socketReadable` (src/libtego/source/protocol/Connection.cpp), the packets of
-- `ContactRequestChannel`, and the calls and timers of the rest of the program, as events.
use ricochet_irc.Prelude.{
  ℕ, Bool, true, false, List, [], ◌∷◌, Option, none, some, find, put, if◌then◌else◌, ◌==◌, length,
}
use ricochet_irc.Wire.Frame.{Bytes}
use ricochet_irc.Wire.Handshake.{intro}
use ricochet_irc.Wire.Reader.{Side, client_side, server_side}
use ricochet_irc.Connection.State.{
  Conn, Channel, Text, Kind, Direction, Purpose, Status, control, auth_hidden_service,
  contact_request, inbound, outbound, unknown, connected, closed, hidden_service_auth, new_channel,
  grant_authentication, set_purpose,
}
use ricochet_irc.Connection.Channels.{
  write_packet, send_message, close, close_channel, socket_disconnected, abort, close_immediately,
  on_unknown_purpose_timeout,
}
use ricochet_irc.Connection.Requests.{Env, handle_response}
use ricochet_irc.Connection.Control.{receive_control, open_channel, keep_alive}
use ricochet_irc.Connection.Auth.{receive_auth}

abbrev pub blank : Side → Conn
blank side = record {
  side = side;
  purpose = unknown;
  hidden_service = none;
  known_peer = none;
  socket = connected;
  was_closed = false;
  next_outbound_channel_id = 0;
  channels = (0, record (new_channel control (control_direction side)) { is_opened = true }) ∷ [];
  handshake_written = [];
  written = [];
  signals = [];
}
  where
    control_direction : Side → Direction
    control_direction client_side = outbound
    control_direction server_side = inbound

unfoldable pub start_client : Text → Conn → Conn
start_client [] c = close c
start_client (x ∷ xs) c = record (grant_authentication hidden_service_auth (x ∷ xs) c) {
  handshake_written = intro;
}

-- `setSocket` on a connected socket. The text is `serverHostname()`, which is empty unless it is a
-- name that ends in ".onion"; the client takes the server to be authenticated as that name, and
-- writes its introduction.
unfoldable pub new_conn : Side → Text → Conn
new_conn client_side hostname = start_client hostname (blank client_side)
new_conn server_side hostname = blank server_side

-- `ContactRequestChannel::receivePacket`.
unfoldable pub receive_response : Env → ℕ → Channel → Option Status → Conn → Conn
receive_response env id ch none c = close_channel id c
receive_response env id ch (some response) c = elim (handle_response response ch c) [
  | none ↦ close_channel id c
  | some (ch', c') ↦ record c' { channels = put id ch' c'.channels }
]

unfoldable pub send_each : ℕ → List Bytes → Conn → Conn
send_each id [] c = c
send_each id (p ∷ ps) c = send_each id ps (send_message id p c).0

unfoldable pub reply_data : Env → ℕ → Channel → Bytes → Conn → Conn
reply_data env id ch payload c =
    let (messages, closes) = env.reply_data ch id payload in
    let c' = send_each id messages c in if closes then close_channel id c' else c'

-- `channel->receivePacket(data)`.
unfoldable pub receive_packet : Env → ℕ → Channel → Bytes → Conn → Conn
receive_packet env id ch payload c = elim ch.kind [
  | control ↦ receive_control env (env.parse payload) c
  | auth_hidden_service ↦ receive_auth env id ch (env.parse_auth payload) c
  | contact_request ↦ receive_response env id ch (env.parse_response payload) c
  | _ ↦ reply_data env id ch payload c
]

-- A whole packet has been read: the end of the loop in `socketReadable`. A packet for a channel
-- that is not there is answered by a close message, unless it is one itself.
unfoldable pub on_packet : Env → ℕ → Bytes → Conn → Conn
on_packet env id payload c = elim (find id c.channels) [
  | none ↦ if length payload == 0 then c else (write_packet id [] c).0
  | some ch ↦ if length payload == 0 then close_channel id c else receive_packet env id ch payload c
]

-- The socket delivers bytes until it is closed.
abbrev pub is_readable : Conn → Bool
is_readable c = elim c.socket [ closed ↦ false | _ ↦ true ]

pub data Event : Type 0 where
  receives : ℕ → Bytes → Event
  -- `openChannel` on a new outbound channel, with a nickname and a message.
  opens : Kind → Text → Text → Event
  -- `closeChannel`, also when it was queued.
  closes : ℕ → Event
  sends : ℕ → Bytes → Event
  sends_keep_alive : Event
  sets_purpose : Purpose → Event
  closes_connection socket_disconnects socket_aborts purpose_timeout close_timeout : Event

abbrev pub opened : Conn → Option (Conn × Bool) → Conn
opened c none = c
opened c (some (c', ok)) = c'

unfoldable pub step : Env → Event → Conn → Conn
step env (receives id payload) c = on_packet env id payload c
step env (opens kind nickname message) c = opened c (open_channel env kind nickname message c)
step env (closes id) c = close_channel id c
step env (sends id payload) c = (send_message id payload c).0
step env sends_keep_alive c = keep_alive env c
step env (sets_purpose p) c = (set_purpose p c).0
step env closes_connection c = close c
step env socket_disconnects c = socket_disconnected c
step env socket_aborts c = abort c
step env purpose_timeout c = on_unknown_purpose_timeout c
step env close_timeout c = close_immediately c

-- Each event with what the outside answers while it is handled.
unfoldable pub run : List (Env × Event) → Conn → Conn
run [] c = c
run ((env, e) ∷ rest) c = run rest (step env e c)
