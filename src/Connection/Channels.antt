-- ===== src/Connection/Channels.antt =====
-- Writing packets, the channel table, closing channels and the connection
-- (src/libtego/source/protocol/Connection.cpp, Channel.cpp). A write that the socket does not take
-- whole is not modelled: a connected `QTcpSocket` buffers what it is given.
use ricochet_irc.Prelude.{
  ℕ, Bool, true, false, not, ◌&&◌, ◌||◌, [], ◌∷◌, ◌++◌, Option, none, some, Dict, find, contains,
  put, remove, if◌then◌else◌, ltb, length, ◌==◌,
}
use ricochet_irc.Wire.Frame.{Bytes, uint16_max, packet_max_data_size}
use ricochet_irc.Connection.State.{
  Conn, Channel, Kind, Direction, inbound, outbound, control, auth_hidden_service, closing, closed,
  connection_closed, channel_invalidated, auth_successful, auth_failed, unknown, emit, is_connected,
  same_kind, is_inbound, is_purpose,
}

-- `ConnectionPrivate::writePacket`, for the identifier of a channel.
unfoldable pub write_packet : ℕ → Bytes → Conn → Conn × Bool
write_packet id payload c =
    if ltb uint16_max id || ltb packet_max_data_size (length payload)
    then (c, false)
    else if not (is_connected c)
    then (c, false)
    else (record c { written = c.written ++ (id, payload) ∷ [] }, true)

-- `Channel::sendMessage` and `Channel::sendPacket`: the serialised message must fit a packet, and
-- may not be empty, which would close the channel.
unfoldable pub send_message : ℕ → Bytes → Conn → Conn × Bool
send_message id payload c =
    if ltb packet_max_data_size (length payload) || length payload == 0
    then (c, false)
    else write_packet id payload c

-- `Connection::close`.
unfoldable pub close : Conn → Conn
close c = if is_connected c then record c { socket = closing } else c

-- What is connected to `invalidated`: the control channel closes the connection, the
-- authentication channel reports how it ended.
unfoldable pub on_invalidated : Channel → Conn → Conn
on_invalidated ch c = elim ch.kind [
  | control ↦ close c
  | auth_hidden_service ↦ emit (if ch.is_accepted then auth_successful else auth_failed) c
  | _ ↦ c
]

-- `ChannelPrivate::invalidate` and `ConnectionPrivate::removeChannel`, for a channel of the table.
unfoldable pub invalidate : ℕ → Channel → Conn → Conn
invalidate id ch c =
    let c' = on_invalidated ch (emit (channel_invalidated id) c) in
    record c' { channels = remove id c'.channels }

-- `Channel::closeChannel`: the peer is told by an empty packet.
unfoldable pub close_channel_object : ℕ → Channel → Conn → Conn
close_channel_object id ch c =
    if is_connected c then invalidate id ch (write_packet id [] c).0 else invalidate id ch c

unfoldable pub close_channel : ℕ → Conn → Conn
close_channel id c = elim (find id c.channels) [ none ↦ c | some ch ↦ close_channel_object id ch c ]

unfoldable pub close_each : Dict Channel → Conn → Conn
close_each [] c = c
close_each ((id, ch) ∷ rest) c = close_each rest (close_channel_object id ch c)

-- `ConnectionPrivate::closeAllChannels`, over a copy of the table.
unfoldable pub close_all_channels : Conn → Conn
close_all_channels c = close_each c.channels c

-- `ConnectionPrivate::socketDisconnected`; the socket is closed when its signal arrives.
unfoldable pub socket_disconnected : Conn → Conn
socket_disconnected c =
    let c' = record c { socket = closed } in
    close_all_channels
      (if c.was_closed then c' else emit connection_closed (record c' { was_closed = true }))

-- `QAbstractSocket::abort`, which signals `disconnected` at once unless the socket is closed.
unfoldable pub abort : Conn → Conn
abort c = elim c.socket [ closed ↦ c | _ ↦ socket_disconnected c ]

-- `ConnectionPrivate::closeImmediately`, five seconds after `close` if nothing else happened.
unfoldable pub close_immediately : Conn → Conn
close_immediately c =
    let c' = abort c in
    if c'.was_closed then c' else emit connection_closed (record c' { was_closed = true })

-- The timer of `ConnectionPrivate::ConnectionPrivate`.
unfoldable pub on_unknown_purpose_timeout : Conn → Conn
on_unknown_purpose_timeout c = if is_purpose c.purpose unknown then close c else c

-- `Connection::findChannel`: `none` asks for either direction.
unfoldable pub matches_direction : Option Direction → Direction → Bool
matches_direction none d = true
matches_direction (some inbound) d = is_inbound d
matches_direction (some outbound) d = not (is_inbound d)

unfoldable pub find_channel : Kind → Option Direction → Dict Channel → Bool
find_channel kind direction [] = false
find_channel kind direction ((id, ch) ∷ rest) =
    (matches_direction direction ch.direction && same_kind kind ch.kind)
    || find_channel kind direction rest

-- `ConnectionPrivate::insertChannel`.
unfoldable pub insert_channel : ℕ → Channel → Conn → Conn × Bool
insert_channel id ch c =
    if contains id c.channels
    then (c, false)
    else (record c { channels = put id ch c.channels }, true)
