-- ===== src/Connector/Attempt.antt =====
-- The operations of an `OutboundConnector` (src/libtego/source/protocol/OutboundConnector.cpp).
use ricochet_irc.Prelude.{
  ℕ, Bool, true, false, not, ◌&&◌, ◌||◌, List, [], ◌∷◌, if◌then◌else◌, ◌==◌, same,
}
use ricochet_irc.Connection.State.{Text}
use ricochet_irc.Connection.Auth.{onion}
use ricochet_irc.Connector.Status.{
  Connector, inactive, connecting, initializing, authenticating, ready, error, invalid_host,
  already_used, not_onion, unexpected_state, version_negotiation_failed, authentication_failed,
  open_failed, connects_socket, emits_ready, is_active, is_status, is_empty, ends_with, note,
  set_status, set_error, abort, refuse,
}

-- The argument `const QString &hostname`: a text of the caller's own, or a reference to the
-- connector's own field, which is read each time it is used.
pub data HostArgument : Type 0 where
  own : Text → HostArgument
  field : HostArgument

abbrev pub read_host : HostArgument → Connector → Text
read_host (own hostname) c = hostname
read_host field c = c.hostname

-- The end of `connectToHost`: the old attempt is given up, and then the argument is read again.
abbrev pub started : HostArgument → ℕ → Connector → Connector
started hostname port c =
    let c' = abort c in
    set_status connecting
      (record c' { hostname = read_host hostname c'; port = port; has_socket = true })

unfoldable pub begin_attempt : HostArgument → ℕ → Connector → Connector
begin_attempt hostname port c =
    let c' = started hostname port c in note (connects_socket c'.hostname c'.port) c'

unfoldable pub connect_to_host : HostArgument → ℕ → Connector → Connector × Bool
connect_to_host hostname port c =
    if port == 0 || is_empty (read_host hostname c)
    then refuse invalid_host c
    else if is_status c.status ready
    then refuse already_used c
    else if is_active c.status && (same (read_host hostname c) c.hostname && port == c.port)
    then (c, true)
    else if not (ends_with onion (read_host hostname c))
    then refuse not_onion c
    else (begin_attempt hostname port c, true)

-- `retryAfterError` passes the field itself to `connectToHost`.
unfoldable pub retry_after_error : Connector → Connector
retry_after_error c =
    let c' = record c { retry_timer = false } in
    if not (is_status c.status error)
    then c'
    else if is_empty c.hostname || c.port == 0
    then abort c'
    else (connect_to_host field c.port c').0

-- The connection comes back beside the connector, if there is one.
unfoldable pub take_connection : Connector → Connector × Bool
take_connection c =
    if not (is_status c.status ready) || not c.has_connection
    then (c, c.has_connection)
    else (set_status inactive (record c { has_connection = false }), true)

unfoldable pub on_connected : Connector → Connector
on_connected c =
    if not c.has_socket || not (is_status c.status connecting)
    then set_error unexpected_state c
    else set_status initializing (record c { has_connection = true; has_socket = false })

-- `opens` is the result of `openChannel` on the authentication channel.
unfoldable pub start_authentication : Bool → Connector → Connector
start_authentication opens c =
    if not c.has_connection || not (is_status c.status initializing)
    then set_error unexpected_state c
    else if not c.has_private_key
    then note emits_ready (set_status ready c)
    else if opens
    then c
    else set_error open_failed c

pub data Event : Type 0 where
  -- Calls of the program.
  connects : Text → ℕ → Event
  aborts takes sets_key : Event
  -- The socket, the timer, and the signals of the connection and its authentication channel.
  socket_connected timer_fires : Event
  connection_ready : Bool → Event
  version_failed channel_opened auth_successful auth_failed : Event

unfoldable pub step : Event → Connector → Connector
step (connects hostname port) c = (connect_to_host (own hostname) port c).0
step aborts c = abort c
step takes c = (take_connection c).0
step sets_key c = record c { has_private_key = true }
step socket_connected c = on_connected c
step timer_fires c = retry_after_error c
step (connection_ready opens) c = start_authentication opens c
step version_failed c = set_error version_negotiation_failed c
step channel_opened c = set_status authenticating c
step auth_successful c = note emits_ready (set_status ready c)
step auth_failed c = set_error authentication_failed c

unfoldable pub run : List Event → Connector → Connector
run [] c = c
run (e ∷ es) c = run es (step e c)
