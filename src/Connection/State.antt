-- ===== src/Connection/State.antt =====
-- The state of `Connection`, `ConnectionPrivate` and `ChannelPrivate`
-- (src/libtego/source/protocol/Connection_p.h, Connection.h, Channel_p.h, Channel.h), with the
-- purpose and the authentication of the connection (Connection.cpp).
use Prim.Native.String.{}
use ricochet_irc.Prelude.{
  ℕ, Bool, true, false, not, ◌&&◌, List, [], ◌∷◌, Option, none, some, Dict, is_some, if◌then◌else◌,
  same,
}
use ricochet_irc.Wire.Frame.{Bytes}
use ricochet_irc.Wire.Reader.{Side, client_side, server_side}

-- Code points of a `QString`.
abbrev pub Text : Type 0
Text = List ℕ

pub data Direction : Type 0 where
  inbound outbound : Direction

pub data Purpose : Type 0 where
  unknown known_contact outbound_request inbound_request : Purpose

pub data AuthenticationType : Type 0 where
  hidden_service_auth known_to_peer : AuthenticationType

-- The subclasses of `Channel`.
pub data Kind : Type 0 where
  control auth_hidden_service chat contact_request file_transfer : Kind

-- `Response::Status` of ContactRequestChannel.proto.
pub data Status : Type 0 where
  undefined pending accepted rejected error : Status

-- `ChannelResult::CommonError` of ControlChannel.proto.
pub data CommonError : Type 0 where
  generic_error unknown_type_error unauthorized_error bad_usage_error failed_error : CommonError

-- A channel in the table of its connection, under its identifier. `is_finished` stands for a
-- `closeChannel` that is queued for the event loop. The last fields belong to the subclasses
-- `AuthHiddenServiceChannel` and `ContactRequestChannel`.
pub record Channel : Type 0 where
  pub kind : Kind
  pub direction : Direction
  pub is_opened : Bool
  pub is_finished : Bool
  pub client_cookie : Bytes
  pub server_cookie : Bytes
  pub is_accepted : Bool
  pub nickname : Text
  pub message : Text
  pub status : Status

abbrev pub new_channel : Kind → Direction → Channel
new_channel kind direction = record {
  kind = kind;
  direction = direction;
  is_opened = false;
  is_finished = false;
  client_cookie = [];
  server_cookie = [];
  is_accepted = false;
  nickname = [];
  message = [];
  status = undefined;
}

-- `closing` is between `disconnectFromHost` and the signal `disconnected`.
pub data SocketState : Type 0 where
  connected closing closed : SocketState

pub data Signal : Type 0 where
  connection_closed connection_ready version_negotiation_failed old_version_negotiated : Signal
  purpose_changed : Purpose → Purpose → Signal
  authenticated : AuthenticationType → Text → Signal
  channel_created : Kind → Direction → Signal
  channel_opened channel_invalidated : ℕ → Signal
  channel_rejected : ℕ → CommonError → Signal
  connection_channel_opened : ℕ → Signal
  keep_alive_response : Signal
  request_received : Text → Text → Signal
  request_status_changed : Status → Signal
  auth_successful auth_failed : Signal

-- `handshake_written` are the bytes written ahead of the packets, `written` the packets written so
-- far, oldest first; `signals` those emitted, newest first.
-- `next_outbound_channel_id` starts below every identifier (-1 there, 0 here).
pub record Conn : Type 0 where
  pub side : Side
  pub purpose : Purpose
  pub hidden_service : Option Text
  pub known_peer : Option Text
  pub socket : SocketState
  pub was_closed : Bool
  pub next_outbound_channel_id : ℕ
  pub channels : Dict Channel
  pub handshake_written : Bytes
  pub written : List (ℕ × Bytes)
  pub signals : List Signal

abbrev pub emit : Signal → Conn → Conn
emit s c = record c { signals = s ∷ c.signals }

abbrev pub is_client : Side → Bool
is_client client_side = true
is_client server_side = false

abbrev pub is_inbound : Direction → Bool
is_inbound inbound = true
is_inbound outbound = false

abbrev pub same_kind : Kind → Kind → Bool
same_kind control control = true
same_kind auth_hidden_service auth_hidden_service = true
same_kind chat chat = true
same_kind contact_request contact_request = true
same_kind file_transfer file_transfer = true
same_kind _ _ = false

abbrev pub is_purpose : Purpose → Purpose → Bool
is_purpose unknown unknown = true
is_purpose known_contact known_contact = true
is_purpose outbound_request outbound_request = true
is_purpose inbound_request inbound_request = true
is_purpose _ _ = false

-- `Connection::isConnected`.
abbrev pub is_connected : Conn → Bool
is_connected c = elim c.socket [ connected ↦ true | _ ↦ false ]

-- `Connection::hasAuthenticated`. The map has two possible keys, a field each.
abbrev pub identity_for : AuthenticationType → Conn → Option Text
identity_for hidden_service_auth c = c.hidden_service
identity_for known_to_peer c = c.known_peer

unfoldable pub has_authenticated : AuthenticationType → Conn → Bool
has_authenticated type c = is_some (identity_for type c)

unfoldable pub matches_identity : Text → Option Text → Bool
matches_identity [] _ = false
matches_identity (x ∷ xs) none = false
matches_identity (x ∷ xs) (some name) = same name (x ∷ xs)

-- `Connection::hasAuthenticatedAs`: never as the empty name.
unfoldable pub has_authenticated_as : AuthenticationType → Text → Conn → Bool
has_authenticated_as type name c = matches_identity name (identity_for type c)

abbrev pub grant : AuthenticationType → Text → Conn → Conn
grant hidden_service_auth name c = record c { hidden_service = some name }
grant known_to_peer name c = record c { known_peer = some name }

-- `Connection::grantAuthentication`: the first grant of a type stays.
unfoldable pub grant_authentication : AuthenticationType → Text → Conn → Conn
grant_authentication type name c =
    if has_authenticated type c then c else emit (authenticated type name) (grant type name c)

-- The `switch` of `Connection::setPurpose`.
unfoldable pub purpose_allowed : Purpose → Conn → Bool
purpose_allowed unknown c = false
purpose_allowed known_contact c = has_authenticated hidden_service_auth c
purpose_allowed outbound_request c = is_client c.side && is_purpose c.purpose unknown
purpose_allowed inbound_request c = not (is_client c.side) && is_purpose c.purpose unknown

unfoldable pub set_purpose : Purpose → Conn → Conn × Bool
set_purpose value c =
    if is_purpose c.purpose value
    then (c, true)
    else if purpose_allowed value c
    then (emit (purpose_changed value c.purpose) (record c { purpose = value }), true)
    else (c, false)
