-- ===== src/Connection/Requests.antt =====
-- The messages of the control channel (src/libtego/source/protocol/ControlChannel.proto and the
-- extensions in AuthHiddenService.proto and ContactRequestChannel.proto), and what each subclass of
-- `Channel` makes of a request to open it: `Channel::create`, `allowInboundChannelRequest`,
-- `allowOutboundChannelRequest` and `processChannelOpenResult`.
use Prim.Native.String.{String}
use text.Mathlib.Text.{◌==◌ as str_eq}
use ricochet_irc.Prelude.{
  ℕ, ◌+◌, ◌%◌, Bool, true, false, not, ◌&&◌, ◌||◌, List, [], ◌∷◌, Option, none, some, if◌then◌else◌,
  ltb, ◌==◌, length, ℤ,
}
use ricochet_irc.Wire.Frame.{Bytes}
use ricochet_irc.Connection.State.{
  Conn, Channel, Text, Kind, Status, CommonError, control, auth_hidden_service, chat,
  contact_request, file_transfer, inbound, outbound, undefined, pending, accepted, error, unknown,
  known_contact, outbound_request, unauthorized_error, bad_usage_error, hidden_service_auth,
  request_received, request_status_changed, has_authenticated, emit, is_client, is_purpose,
}
use ricochet_irc.Connection.Channels.{find_channel}

pub record OpenChannel : Type 0 where
  pub channel_identifier : ℤ
  pub channel_type : String
  pub client_cookie : Bytes
  pub request : Option (Text × Text)

pub record ChannelResult : Type 0 where
  pub channel_identifier : ℤ
  pub opened : Bool
  pub common_error : Option CommonError
  pub server_cookie : Bytes
  pub response : Option Status

-- The fields that a `Packet` has set.
pub record ControlPacket : Type 0 where
  pub open_channel : Option OpenChannel
  pub channel_result : Option ChannelResult
  pub keep_alive : Option Bool
  pub enable_features : Bool
  pub features_enabled : Bool

-- A `Packet` on an authentication channel: the first field that is set.
pub data AuthPacket : Type 0 where
  -- signature, service id
  proof : Bytes → Bytes → AuthPacket
  -- accepted, is_known_contact
  result : Bool → Bool → AuthPacket
  unrecognized : AuthPacket

-- What a handler gets from outside these files: random numbers, the answer of the slots that are
-- connected to a signal, the cryptography of OpenSSL and Tor, Unicode categories, protobuf.
pub record Env : Type 0 where
  -- `SecureRNG::random(COOKIE_SIZE)`; empty if it fails.
  pub random_cookie : Bytes
  -- `QRandomGenerator::bounded(200)`, call by call.
  pub bounded : ℕ → ℕ
  -- The status that the slot of `requestReceived` sets.
  pub answer : Text → Text → Status
  -- The slot of `authenticated` claims the connection for a contact of this name.
  pub recognizes : Text → Bool
  -- A format or control character or a non-character, for a UTF-16 unit.
  pub is_special : ℕ → Bool
  pub has_private_key : Bool
  -- The serialised proof for the cookies of a channel.
  pub proof_packet : Channel → Bytes
  -- The service's public key can be read and verifies the signature of the proof data.
  pub verifies : Channel → Bytes → Bytes → Bool
  pub serialize : ControlPacket → Bytes
  -- Parsing; `none` fails.
  pub parse : Bytes → Option ControlPacket
  pub parse_auth : Bytes → Option AuthPacket
  pub parse_response : Bytes → Option Status
  -- What a chat or file channel answers to a packet: messages, and then whether it closes itself.
  pub reply_data : Channel → ℕ → Bytes → List Bytes × Bool
  -- `AuthHiddenService::Result` with `accepted` and `is_known_contact`.
  pub serialize_auth_result : Bool → Bool → Bytes

abbrev pub cookie_size : ℕ
cookie_size = 16

abbrev pub message_max_characters : ℕ
message_max_characters = 2000

abbrev pub nickname_max_characters : ℕ
nickname_max_characters = 30

-- `QString::size`: UTF-16 units.
unfoldable pub text_size : Text → ℕ
text_size [] = 0
text_size (c ∷ cs) = (if ltb c 65536 then 1 else 2) + text_size cs

-- `Channel::create`: the control channel has no type name.
unfoldable pub create : String → Option Kind
create type =
    if str_eq type "im.ricochet.auth.hidden-service"
    then some auth_hidden_service
    else if str_eq type "im.ricochet.chat"
    then some chat
    else if str_eq type "im.ricochet.contact.request"
    then some contact_request
    else if str_eq type "im.ricochet.file-transfer"
    then some file_transfer
    else none

-- Response::Pending is 1, and the final states come behind it.
abbrev pub is_final : Status → Bool
is_final undefined = false
is_final pending = false
is_final _ = true

abbrev pub is_undefined : Status → Bool
is_undefined undefined = true
is_undefined _ = false

-- `QChar c(value)` keeps the low 16 bits of the code point.
unfoldable pub acceptable_characters : Env → Text → Bool
acceptable_characters env [] = true
acceptable_characters env (c ∷ cs) =
    not (env.is_special (c % 65536) || (c == b'"' || (c == b'<' || (c == b'>' || c == b'&'))))
    && acceptable_characters env cs

unfoldable pub is_acceptable_nickname : Env → Text → Bool
is_acceptable_nickname env name =
    if ltb nickname_max_characters (text_size name) then false else acceptable_characters env name

-- The outcome of `allowInboundChannelRequest`: the channel, the result and the connection after it.
pub record Decision : Type 0 where
  pub allowed : Bool
  pub channel : Channel
  pub result : ChannelResult
  pub conn : Conn

abbrev pub refuse : Channel → ChannelResult → Conn → Decision
refuse ch r c = record { allowed = false; channel = ch; result = r; conn = c }

abbrev pub refuse_with : CommonError → Channel → ChannelResult → Conn → Decision
refuse_with e ch r c = refuse ch (record r { common_error = some e }) c

-- ChatChannel and FileChannel.
unfoldable pub allow_for_contact : Kind → Channel → ChannelResult → Conn → Decision
allow_for_contact kind ch r c =
    if not (is_purpose c.purpose known_contact)
    then refuse_with unauthorized_error ch r c
    else if find_channel kind (some inbound) c.channels
    then refuse ch r c
    else record { allowed = true; channel = ch; result = r; conn = c }

-- AuthHiddenServiceChannel.
unfoldable pub allow_auth : Env → OpenChannel → Channel → ChannelResult → Conn → Decision
allow_auth env m ch r c =
    if is_client c.side
    then refuse_with bad_usage_error ch r c
    else if has_authenticated hidden_service_auth c
    then refuse_with bad_usage_error ch r c
    else if find_channel auth_hidden_service none c.channels
    then refuse_with bad_usage_error ch r c
    else if not (length m.client_cookie == cookie_size)
    then refuse_with bad_usage_error ch r c
    else let ch' = record ch {
      client_cookie = m.client_cookie;
      server_cookie = env.random_cookie;
    } in
      if length env.random_cookie == 0 then refuse ch' r c else record {
        allowed = true;
        channel = ch';
        result = record r { server_cookie = env.random_cookie };
        conn = c;
      }

-- The request as it stands, or an error for a text or a name that is not acceptable. A slot that
-- sets no status counts as an error.
unfoldable pub contact_status : Env → Text → Text → Status
contact_status env nickname message =
    if ltb message_max_characters (text_size message) || not (is_acceptable_nickname env nickname)
    then error
    else if is_undefined (env.answer nickname message)
    then error
    else env.answer nickname message

unfoldable pub receive_request : Env → Text → Text → Channel → ChannelResult → Conn → Decision
receive_request env nickname message ch r c =
    let bad =
      ltb message_max_characters (text_size message) || not (is_acceptable_nickname env nickname) in
    let status = contact_status env nickname message in
    record {
      allowed = true;
      channel = record ch {
        nickname = if bad then ch.nickname else nickname;
        message = if bad then ch.message else message;
        status = status;
        is_finished = is_final status;
      };
      result = record r { response = some status };
      conn = if bad then c else emit (request_received nickname message) c;
    }

-- ContactRequestChannel.
unfoldable pub allow_contact_request : Env → OpenChannel → Channel → ChannelResult → Conn → Decision
allow_contact_request env m ch r c =
    if is_purpose c.purpose known_contact
    then refuse ch (record r { response = some accepted }) c
    else if is_client c.side || not (is_purpose c.purpose unknown)
    then refuse_with bad_usage_error ch r c
    else if find_channel contact_request none c.channels
    then refuse_with bad_usage_error ch r c
    else if not (has_authenticated hidden_service_auth c)
    then refuse_with unauthorized_error ch r c
    else elim m.request [
      | none ↦ refuse_with bad_usage_error ch r c
      | some (nickname, message) ↦ receive_request env nickname message ch r c
    ]

unfoldable pub allow_inbound : Env → OpenChannel → Kind → Channel → ChannelResult → Conn → Decision
allow_inbound env m control ch r c = refuse ch r c
allow_inbound env m auth_hidden_service ch r c = allow_auth env m ch r c
allow_inbound env m chat ch r c = allow_for_contact chat ch r c
allow_inbound env m contact_request ch r c = allow_contact_request env m ch r c
allow_inbound env m file_transfer ch r c = allow_for_contact file_transfer ch r c

-- `allowOutboundChannelRequest`: `none` cancels; otherwise the channel and the request's data.
abbrev pub allow_outbound_to_contact :
    Kind → Channel → OpenChannel → Conn → Option (Channel × OpenChannel)
allow_outbound_to_contact kind ch m c =
    if find_channel kind (some outbound) c.channels || not (is_purpose c.purpose known_contact)
    then none
    else some (ch, m)

unfoldable pub allow_outbound :
    Env → Kind → Channel → OpenChannel → Conn → Option (Channel × OpenChannel)
allow_outbound env control ch m c = none
allow_outbound env auth_hidden_service ch m c =
    if not env.has_private_key || length env.random_cookie == 0
    then none
    else some (
      record ch { client_cookie = env.random_cookie },
      record m { client_cookie = env.random_cookie },
    )
allow_outbound env chat ch m c = allow_outbound_to_contact chat ch m c
allow_outbound env file_transfer ch m c = allow_outbound_to_contact file_transfer ch m c
allow_outbound env contact_request ch m c =
    if not (is_client c.side) || not (is_purpose c.purpose outbound_request)
    then none
    else if find_channel contact_request none c.channels
    then none
    else some (ch, record m { request = some (ch.nickname, ch.message) })

-- `ContactRequestChannel::handleResponse`: `none` is the result false.
unfoldable pub handle_response : Status → Channel → Conn → Option (Channel × Conn)
handle_response response ch c =
    if is_undefined response || is_final ch.status
    then none
    else some (
      record ch { status = response; is_finished = is_final response || ch.is_finished },
      emit (request_status_changed response) c,
    )

-- `processChannelOpenResult`: `none` cancels.
unfoldable pub process_result : Kind → ChannelResult → Channel → Conn → Option (Channel × Conn)
process_result control r ch c = none
process_result auth_hidden_service r ch c =
    if r.opened && length r.server_cookie == cookie_size
    then some (record ch { server_cookie = r.server_cookie }, c)
    else none
process_result contact_request r ch c = elim r.response [
  | none ↦ none
  | some response ↦ handle_response response ch c
]
process_result _ r ch c = some (ch, c)
