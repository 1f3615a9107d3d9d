-- ===== src/Connector/Consistent/Histories.antt =====
-- An `OutboundConnector` behind any history of events, and its connection
-- (src/libtego/source/protocol/OutboundConnector.cpp).
use ricochet_irc.Prelude.{◌≡◌, refl, true, false, List, [], ◌∷◌, arith, ap, inr}
use ricochet_irc.Connector.Status.{
  Connector, inactive, authenticating, ready, new_connector, authentication_failed,
  version_negotiation_failed,
}
use ricochet_irc.Connector.Attempt.{
  own, take_connection, Event, connects, aborts, takes, sets_key, socket_connected, timer_fires,
  connection_ready, version_failed, channel_opened, auth_successful, auth_failed, step, run,
}
use ricochet_irc.Connector.Consistent.{
  needs_connection, IsConsistent, status-set_status, socket-set_status, connection-set_status,
  nothing_held, set_error-IsConsistent, abort-IsConsistent, no_socket, later,
}
use ricochet_irc.Connector.Consistent.Operations.{
  connect_to_host-IsConsistent, retry_after_error-IsConsistent, take_connection-IsConsistent,
  on_connected-IsConsistent, start_authentication-IsConsistent,
}

taken :
    (c : Connector)
    → c.status ≡ ready
    → c.has_connection ≡ true
    → c.has_socket ≡ false
    → ((take_connection c).1 ≡ true)
      × ((take_connection c).0.status ≡ inactive)
      × ((take_connection c).0.has_connection ≡ false)
      × ((take_connection c).0.has_socket ≡ false)
unfolding take_connection
taken c e held no_s =
    let d = record c { has_connection = false } in
    ground (
      arith,
      status-set_status inactive d,
      connection-set_status inactive d,
      socket-set_status inactive d,
    )

-- The signals of an authentication channel come while the connector has a connection.
abbrev pub IsPossible : Event → Connector → Type 0
IsPossible channel_opened c = c.has_connection ≡ true
IsPossible auth_successful c = c.has_connection ≡ true
IsPossible _ c = Unit {0}

abbrev pub ArePossible : List Event → Connector → Type 0
ArePossible [] c = Unit {0}
ArePossible (e ∷ es) c = IsPossible e c × ArePossible es (step e c)

step-IsConsistent :
    (e : Event) (c : Connector) → IsConsistent c → IsPossible e c → IsConsistent (step e c)
unfolding step
step-IsConsistent (connects h port) c v p = connect_to_host-IsConsistent (own h) port c v
step-IsConsistent aborts c v p = abort-IsConsistent c
step-IsConsistent takes c v p = take_connection-IsConsistent c v
step-IsConsistent sets_key c v p = v
step-IsConsistent socket_connected c v p = on_connected-IsConsistent c v
step-IsConsistent timer_fires c v p = retry_after_error-IsConsistent c v
step-IsConsistent (connection_ready opens) c v p = start_authentication-IsConsistent opens c v
step-IsConsistent version_failed c v p = set_error-IsConsistent version_negotiation_failed c
step-IsConsistent channel_opened c v p = later authenticating c v p (λ e. cc) (λ e. cc)
step-IsConsistent auth_successful c v p = later ready c v p (λ e. cc) (λ e. cc)
step-IsConsistent auth_failed c v p = set_error-IsConsistent authentication_failed c

-- A connector is consistent after any history.
run-IsConsistent :
    (es : List Event) (c : Connector) → IsConsistent c → ArePossible es c → IsConsistent (run es c)
unfolding run
run-IsConsistent [] c v p = v
run-IsConsistent (e ∷ es) c v p = run-IsConsistent es (step e c) (step-IsConsistent e c v p.0) p.1

-- After any history in which a channel opens or an authentication succeeds only while the connector
-- has a connection: a connector that is ready has a connection and no socket, so that taking the
-- connection hands it over and leaves an inactive connector that holds nothing.
pub ready_takes :
    (es : List Event)
    → ArePossible es new_connector
    → (run es new_connector).status ≡ ready
    → let c = run es new_connector in
      ((take_connection c).1 ≡ true)
      × ((take_connection c).0.status ≡ inactive)
      × ((take_connection c).0.has_connection ≡ false)
      × ((take_connection c).0.has_socket ≡ false)
ready_takes es p e =
    let c = run es new_connector in
    let v = run-IsConsistent es new_connector (nothing_held inactive (inr refl)) p in
    let held : c.has_connection ≡ true = v.waits_on (ap needs_connection e) in
    taken c e held (no_socket c v held)
