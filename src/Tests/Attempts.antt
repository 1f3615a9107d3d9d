-- ===== src/Tests/Attempts.antt =====
-- Attempts to connect at concrete inputs (src/libtego/source/protocol/OutboundConnector.cpp,
-- src/libtego/source/tor/TorSocket.cpp).
use ricochet_irc.Prelude.{◌≤◌, ◌≡◌, refl, true, false, List, [], ◌∷◌, ◌++◌, codes}
use ricochet_irc.Connection.State.{Text}
use ricochet_irc.Connection.Auth.{onion}
use ricochet_irc.Connector.Status.{
  Connector, Action, connecting, inactive, authentication_failed, connects_socket, new_connector,
  abort, drop_attempt, set_status, set_error,
}
use ricochet_irc.Connector.Attempt
use ricochet_irc.Connector.Attempt.{
  connects, socket_connected, connection_ready, sets_key, channel_opened, auth_successful,
  auth_failed, begin_attempt, connect_to_host, on_connected, start_authentication, take_connection,
  retry_after_error,
}
use ricochet_irc.Connector.Consistent.Histories.{ready_takes}
use ricochet_irc.Connector.Retry.{retry_forgets_host}
use ricochet_irc.Connector.Pauses
use ricochet_irc.Connector.Pauses.{
  Network, fails, timer_fires, resets, new_socket, reconnect_interval, on_failed, reconnect,
  connect_socket,
}
use ricochet_irc.Connector.Pauses.Bounds.{failures, pauses_bounded}

abbrev alice : Text
alice = codes "alice" ++ onion

-- A whole attempt: the socket connects, the versions are negotiated, and the peer authenticates us.
abbrev attempt : List Attempt.Event
attempt =
    sets_key
    ∷ connects alice 9878
    ∷ socket_connected
    ∷ connection_ready true
    ∷ channel_opened
    ∷ auth_successful
    ∷ []

ready_takes_example :
    let c = Attempt.run attempt new_connector in
    ((take_connection c).1 ≡ true)
    × ((take_connection c).0.status ≡ inactive)
    × ((take_connection c).0.has_connection ≡ false)
    × ((take_connection c).0.has_socket ≡ false)
unfolding Attempt.run Attempt.step connect_to_host begin_attempt on_connected start_authentication
    abort drop_attempt set_status
ready_takes_example = ready_takes attempt (tt, (tt, (tt, (tt, (refl, (refl, tt)))))) refl

abbrev refused : Connector
refused =
    Attempt.run
      (sets_key ∷ connects alice 9878 ∷ socket_connected ∷ connection_ready true ∷ auth_failed ∷ [])
      new_connector

retry_forgets_host_example :
    let c' = retry_after_error refused in
    let c'' = set_error authentication_failed c' in
    ((rest : List Action) × (c'.log ≡ connects_socket [] 9878 ∷ rest))
    × (c'.status ≡ connecting)
    × (c'.hostname ≡ [])
    × (c''.error_retry_count ≡ 1)
    × (c''.retry_timer ≡ true)
    × ((retry_after_error c'').status ≡ inactive)
unfolding Attempt.run Attempt.step connect_to_host begin_attempt on_connected start_authentication
    abort drop_attempt set_status set_error
retry_forgets_host_example = retry_forgets_host refused authentication_failed refl refl refl refl

abbrev online : Network
online = record { has_connectivity = true; is_unconnected = true }

abbrev two_failures : List (Network × Pauses.Event)
two_failures = (online, fails) ∷ (online, timer_fires) ∷ (online, fails) ∷ []

pauses_bounded_example :
    (30 ≡ reconnect_interval (failures two_failures new_socket 0) 600)
    × (30 ≤ 30)
    × (30 ≤ 600)
    × ((Pauses.run two_failures new_socket).reconnect_enabled ≡ true)
unfolding failures Pauses.run Pauses.step on_failed reconnect reconnect_interval
pauses_bounded_example = pauses_bounded two_failures 30 refl
