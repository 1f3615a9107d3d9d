-- ===== src/Connection/Control.antt =====
-- The control channel (src/libtego/source/protocol/ControlChannel.cpp) and the opening of channels
-- in `Channel::openChannel` and `ChannelPrivate` (Channel.cpp).
use Prim.Native.String.{String}
use ricochet_irc.Prelude.{
  ℕ, Bool, true, false, not, ◌&&◌, ◌||◌, [], Option, none, some, find, put, is_some, if◌then◌else◌,
  ◌==◌, length, ℤ, pos, natural,
}
use ricochet_irc.Wire.Reader.{Side, client_side, server_side}
use ricochet_irc.Connection.State.{
  Conn, Channel, Text, Kind, CommonError, control, auth_hidden_service, inbound, outbound,
  contact_request, chat, file_transfer, generic_error, unknown_type_error, channel_created,
  channel_opened, channel_rejected, connection_channel_opened, keep_alive_response, new_channel,
  emit, is_inbound,
}
use ricochet_irc.Connection.Channels.{
  send_message, close_channel, invalidate, on_invalidated, find_channel, insert_channel,
}
use ricochet_irc.Connection.Ids.{available_outbound_channel_id, is_valid_available_channel_id}
use ricochet_irc.Connection.Requests.{
  OpenChannel, ChannelResult, ControlPacket, Env, Decision, create, allow_inbound, allow_outbound,
  process_result, cookie_size,
}

abbrev pub empty_packet : ControlPacket
empty_packet = record {
  open_channel = none;
  channel_result = none;
  keep_alive = none;
  enable_features = false;
  features_enabled = false;
}

abbrev pub type_name : Kind → String
type_name control = "control"
type_name auth_hidden_service = "im.ricochet.auth.hidden-service"
type_name chat = "im.ricochet.chat"
type_name contact_request = "im.ricochet.contact.request"
type_name file_transfer = "im.ricochet.file-transfer"

unfoldable pub reply_result : Env → ChannelResult → Conn → Conn
reply_result env r c =
    (send_message 0 (env.serialize (record empty_packet { channel_result = some r })) c).0

abbrev pub refused_result : ℤ → Option CommonError → ChannelResult
refused_result id e = record {
  channel_identifier = id;
  opened = false;
  common_error = e;
  server_cookie = [];
  response = none;
}

unfoldable pub admit_channel : Env → ℕ → Channel → ChannelResult → Conn → Conn
admit_channel env id ch r c =
    let c' = (insert_channel id ch (emit (channel_opened id) c)).0 in
    emit (connection_channel_opened id) (reply_result env (record r { opened = true }) c')

-- `openChannelInbound` behind `allowInboundChannelRequest`, and the rest of `handleOpenChannel`.
unfoldable pub finish_inbound : Env → ℕ → Decision → Conn
finish_inbound env id d =
    if d.allowed && not (is_some d.result.common_error)
    then admit_channel env id (record (d.channel) { is_opened = true }) d.result d.conn
    else reply_result env (record (d.result) { opened = false }) d.conn

unfoldable pub open_inbound : Env → OpenChannel → ℕ → Option Kind → Conn → Conn
open_inbound env m id none c =
    reply_result env (refused_result (pos id) (some unknown_type_error)) c
open_inbound env m id (some kind) c = finish_inbound env id (
    allow_inbound env m kind (new_channel kind inbound) (refused_result (pos id) none)
      (emit (channel_created kind inbound) c))

abbrev pub peer_of : Side → Side
peer_of client_side = server_side
peer_of server_side = client_side

unfoldable pub handle_valid : Env → OpenChannel → ℤ → Conn → Conn
handle_valid env m id c = elim (natural id) [
  | none ↦ c
  | some n ↦ open_inbound env m n (create m.channel_type) c
]

-- `ControlChannel::handleOpenChannel`. An identifier that the peer may not use closes the
-- connection.
unfoldable pub handle_open_channel : Env → OpenChannel → Conn → Conn
handle_open_channel env m c =
    if is_valid_available_channel_id m.channel_identifier (peer_of c.side) c.channels
    then handle_valid env m m.channel_identifier c
    else close_channel 0 c

-- `AuthHiddenServiceChannel::sendAuthMessage`, connected to `channelOpened`.
unfoldable pub send_auth_message : Env → ℕ → Channel → Conn → Conn
send_auth_message env id ch c =
    if not (length ch.client_cookie == cookie_size) || not (length ch.server_cookie == cookie_size)
    then close_channel id c
    else (send_message id (env.proof_packet ch) c).0

unfoldable pub on_channel_opened : Env → ℕ → Channel → Conn → Conn
on_channel_opened env id ch c = elim ch.kind [
  | auth_hidden_service ↦ send_auth_message env id ch c
  | _ ↦ c
]

unfoldable pub mark_opened : Env → ℕ → Channel → Conn → Conn
mark_opened env id ch c =
    let c' = record c { channels = put id ch c.channels } in
    let c'' = on_channel_opened env id ch (emit (channel_opened id) c') in
    if is_some (find id c''.channels) then emit (connection_channel_opened id) c'' else c''

abbrev pub error_of : ChannelResult → CommonError
error_of r = elim r.common_error [ none ↦ generic_error | some e ↦ e ]

-- `openChannelResult` once the subclass has accepted the result.
unfoldable pub accept_result : Env → ℕ → ChannelResult → Channel → Conn → Conn
accept_result env id r ch c =
    if r.opened
    then mark_opened env id (record ch { is_opened = true }) c
    else invalidate id ch (emit (channel_rejected id (error_of r)) c)

-- `openChannelResult` once the subclass has cancelled: a peer that has opened the channel is told.
unfoldable pub cancel_result : ℕ → ChannelResult → Channel → Conn → Conn
cancel_result id r ch c =
    if r.opened
    then emit (channel_rejected id (error_of r)) (close_channel id c)
    else invalidate id ch (emit (channel_rejected id (error_of r)) c)

unfoldable pub handle_pending : Env → ℕ → ChannelResult → Channel → Conn → Conn
handle_pending env id r ch c =
    if is_inbound ch.direction || ch.is_opened then c else elim (process_result ch.kind r ch c) [
      | none ↦ cancel_result id r ch c
      | some (ch', c') ↦ accept_result env id r ch' c'
    ]

unfoldable pub handle_result_for : Env → ℕ → ChannelResult → Conn → Conn
handle_result_for env id r c = elim (find id c.channels) [
  | none ↦ c
  | some ch ↦ handle_pending env id r ch c
]

-- `ControlChannel::handleChannelResult`.
unfoldable pub handle_channel_result : Env → ChannelResult → Conn → Conn
handle_channel_result env r c = elim (natural r.channel_identifier) [
  | none ↦ c
  | some id ↦ handle_result_for env id r c
]

-- `ControlChannel::handleKeepAlive`, `handleEnableFeatures` and `keepAlive`.
unfoldable pub handle_keep_alive : Env → Bool → Conn → Conn
handle_keep_alive env requested c =
    if requested
    then (send_message 0 (env.serialize (record empty_packet { keep_alive = some false })) c).0
    else emit keep_alive_response c

unfoldable pub handle_enable_features : Env → Conn → Conn
handle_enable_features env c =
    (send_message 0 (env.serialize (record empty_packet { features_enabled = true })) c).0

unfoldable pub keep_alive : Env → Conn → Conn
keep_alive env c =
    (send_message 0 (env.serialize (record empty_packet { keep_alive = some true })) c).0

-- `ControlChannel::receivePacket`; `none` is a packet that does not parse.
unfoldable pub receive_control : Env → Option ControlPacket → Conn → Conn
receive_control env none c = close_channel 0 c
receive_control env (some p) c = elim p.open_channel [
  | some m ↦ handle_open_channel env m c
  | none ↦ elim p.channel_result [
    | some r ↦ handle_channel_result env r c
    | none ↦ elim p.keep_alive [
      | some requested ↦ handle_keep_alive env requested c
      | none ↦ if p.enable_features then handle_enable_features env c else close_channel 0 c
    ]
  ]
]

-- `Channel::openChannel` on a new channel fails: the channel is invalidated, and taken off the
-- table if it got there.
unfoldable pub open_failed : Channel → Conn → Conn × Bool
open_failed ch c = (on_invalidated ch c, false)

unfoldable pub keep_if_sent : ℕ → Channel → Conn × Bool → Conn × Bool
keep_if_sent id ch (c, sent) = if sent then (c, true) else (invalidate id ch c, false)

-- `sendOpenChannel` with an identifier and the subclass's consent.
unfoldable pub send_request : Env → ℕ → Channel → OpenChannel → Conn → Conn × Bool
send_request env id ch m c =
    let (c', inserted) = insert_channel id ch c in
    if not inserted
    then open_failed ch c
    else keep_if_sent id ch
        (send_message 0 (env.serialize (record empty_packet { open_channel = some m })) c')

unfoldable pub send_open_channel : Env → Channel → Conn × Option ℕ → Conn × Bool
send_open_channel env ch (c, none) = open_failed ch c
send_open_channel env ch (c, some id) =
    let m : OpenChannel = record {
      channel_identifier = pos id;
      channel_type = type_name ch.kind;
      client_cookie = [];
      request = none;
    } in
    let c' = emit (channel_created ch.kind outbound) c in
    elim (allow_outbound env ch.kind ch m c') [
      | none ↦ open_failed ch c'
      | some (ch', m') ↦ send_request env id ch' m' c'
    ]

-- `Channel::openChannel` and `ControlChannel::sendOpenChannel` for a new outbound channel; the
-- nickname and the message are those of a contact request. `none` is the null pointer that
-- `findChannel<ControlChannel>` returns on a connection that has lost its control channel.
unfoldable pub open_channel : Env → Kind → Text → Text → Conn → Option (Conn × Bool)
open_channel env kind nickname message c =
    if find_channel control none c.channels
    then some (
        send_open_channel env
          (record (new_channel kind outbound) { nickname = nickname; message = message })
          (available_outbound_channel_id env.bounded c))
    else none
