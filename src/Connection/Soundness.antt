-- ===== src/Connection/Soundness.antt =====
-- What holds of a connection between two events: which channels its table may hold, under which
-- identifiers, and what that says of its purpose and its authentication.
pub mod Parts
pub mod Openings
pub mod Results
pub mod Requests
pub mod Packets
pub mod Histories
use ricochet_irc.Prelude.{
  ℕ, ◌%◌, ◌≤◌, ◌≡◌, ◌≢◌, Bool, true, false, not, ◌||◌, Option, some, ◌++◌, Dict, Entries, is_some,
  if◌then◌else◌, ◌==◌,
}
use ricochet_irc.Wire.Frame.{Bytes, uint16_max}
use ricochet_irc.Wire.Reader.{Side}
use ricochet_irc.Connection.State.{
  Conn, Channel, Text, Direction, Purpose, inbound, outbound, control, chat, file_transfer,
  known_contact, outbound_request, inbound_request, is_client, is_inbound, same_kind,
}
use ricochet_irc.Connection.Requests.{Env}
use ricochet_irc.Connection.Auth.{proof_accepted, onion}

-- Odd identifiers for the channels that the client opens, even ones for those of the server.
abbrev pub parity_of : Side → Direction → ℕ
parity_of side inbound = if is_client side then 0 else 1
parity_of side outbound = if is_client side then 1 else 0

abbrev pub is_for_contact : Channel → Bool
is_for_contact ch = same_kind chat ch.kind || same_kind file_transfer ch.kind

-- An entry of the table: the control channel, open, under 0 and no other there; any other channel
-- under a number of the side that opened it; a channel that the peer opened is open; chats and file
-- transfers only with a known contact.
pub record ChannelOk (side : Side) (purpose : Purpose) (id : ℕ) (ch : Channel) : Type 0 where
  pub fits : id ≤ uint16_max
  pub is_control : same_kind control ch.kind ≡ (id == 0)
  pub parity : same_kind control ch.kind ≡ false → id % 2 ≡ parity_of side ch.direction
  pub opened : is_inbound ch.direction ≡ true → ch.is_opened ≡ true
  pub for_contact : is_for_contact ch ≡ true → purpose ≡ known_contact

-- The parts of a connection that decide on its soundness.
-- The names that the service may be known by are `Proven`.
pub record Sound (Proven : Text → Type 0) (side : Side) (purpose : Purpose) (service : Option Text)
    (channels : Dict Channel) : Type 0 where
  pub entries : Entries (ChannelOk side purpose) channels
  pub contact_known : purpose ≡ known_contact → is_some service ≡ true
  pub proven : (name : Text) → service ≡ some name → Proven name
  pub requester : purpose ≡ outbound_request → is_client side ≡ true
  pub requested : purpose ≡ inbound_request → is_client side ≡ false

abbrev pub IsSound : (Text → Type 0) → Conn → Type 0
IsSound Proven c = Sound Proven c.side c.purpose c.hidden_service c.channels

-- Whoever passes the verification of a proof for a service has a name that is `Proven`.
abbrev pub Proves : (Text → Type 0) → Env → Type 0
Proves Proven env =
    (ch : Channel) (signature service_id : Bytes)
    → proof_accepted env ch signature service_id ≡ true
    → Proven (service_id ++ onion)
