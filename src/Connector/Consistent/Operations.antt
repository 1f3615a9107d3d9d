-- ===== src/Connector/Consistent/Operations.antt =====
-- Each operation of an `OutboundConnector` keeps it consistent
-- (src/libtego/source/protocol/OutboundConnector.cpp).
use ricochet_irc.Prelude.{
  ℕ, ◌≡◌, refl, Bool, true, false, not, ◌&&◌, ◌||◌, arith, inr, ◌==◌, if_both, if_cases, same,
}
use ricochet_irc.Connection.Auth.{onion}
use ricochet_irc.Connector.Status.{
  Connector, ErrorMessage, inactive, connecting, initializing, ready, error, is_active, is_status,
  is_empty, ends_with, invalid_host, already_used, not_onion, unexpected_state, open_failed, abort,
}
use ricochet_irc.Connector.Attempt.{
  HostArgument, read_host, field, begin_attempt, connect_to_host, retry_after_error,
  take_connection, on_connected, start_authentication,
}
use ricochet_irc.Connector.Consistent.{
  Consistent, IsConsistent, set_status-IsConsistent, nothing_held, set_error-IsConsistent,
  abort-IsConsistent, connection-abort, no_socket, connection_held, later,
}

pub begin_attempt-IsConsistent :
    (h : HostArgument) (port : ℕ) (c : Connector) → IsConsistent (begin_attempt h port c)
unfolding begin_attempt
begin_attempt-IsConsistent h port c =
    let no : (abort c).has_connection ≡ false = connection-abort c in
    set_status-IsConsistent connecting _ (
      rw no (record {
        one = λ _. refl;
        connects_by = λ _. refl;
        waits_on = λ e. absurd (cc);
        idle = λ e. absurd (cc);
      }))

-- Where the status alone becomes an error.
error_held : (c : Connector) → IsConsistent c → Consistent error c.has_socket c.has_connection
error_held c v = record {
  one = v.one;
  connects_by = λ e. absurd (cc);
  waits_on = λ e. absurd (cc);
  idle = λ e. absurd (cc);
}

pub connect_to_host-IsConsistent :
    (h : HostArgument) (port : ℕ) (c : Connector)
    → IsConsistent c
    → IsConsistent (connect_to_host h port c).0
unfolding connect_to_host
connect_to_host-IsConsistent h port c v =
    let P = λ (r : Connector × Bool). IsConsistent r.0 in
    let refused = λ (m : ErrorMessage).
      set_status-IsConsistent error (record c { error_message = m }) (error_held c v) in
    if_both P (port == 0 || is_empty (read_host h c)) _ _ (refused invalid_host) (
      if_both P (is_status c.status ready) _ _ (refused already_used) (
        if_both P (is_active c.status && (same (read_host h c) c.hostname && port == c.port)) _ _ v
          (if_both P (not (ends_with onion (read_host h c))) _ _ (refused not_onion)
            (begin_attempt-IsConsistent h port c))))

pub retry_after_error-IsConsistent :
    (c : Connector) → IsConsistent c → IsConsistent (retry_after_error c)
unfolding retry_after_error
retry_after_error-IsConsistent c v = if_both IsConsistent (not (is_status c.status error)) _ _ v (
    if_both IsConsistent (is_empty c.hostname || c.port == 0) _ _
      (abort-IsConsistent (record c { retry_timer = false }))
      (connect_to_host-IsConsistent field c.port (record c { retry_timer = false }) v))

pub take_connection-IsConsistent :
    (c : Connector) → IsConsistent c → IsConsistent (take_connection c).0
unfolding take_connection
take_connection-IsConsistent c v =
    if_cases (λ (r : Connector × Bool). IsConsistent r.0)
      (not (is_status c.status ready) || not c.has_connection) _ _ (λ _. v)
      (λ e.
        let held : c.has_connection ≡ true = ground arith in
        set_status-IsConsistent inactive _
          (rw (no_socket c v held) (nothing_held inactive (inr refl))))

pub on_connected-IsConsistent : (c : Connector) → IsConsistent c → IsConsistent (on_connected c)
unfolding on_connected
on_connected-IsConsistent c v =
    if_both IsConsistent (not c.has_socket || not (is_status c.status connecting)) _ _
      (set_error-IsConsistent unexpected_state c)
      (set_status-IsConsistent initializing _ (connection_held initializing (λ e. cc) (λ e. cc)))

pub start_authentication-IsConsistent :
    (opens : Bool) (c : Connector) → IsConsistent c → IsConsistent (start_authentication opens c)
unfolding start_authentication
start_authentication-IsConsistent opens c v =
    if_cases IsConsistent (not c.has_connection || not (is_status c.status initializing)) _ _
      (λ _. set_error-IsConsistent unexpected_state c)
      (λ e.
        let held : c.has_connection ≡ true = ground arith in
        if_both IsConsistent (not c.has_private_key) _ _ (later ready c v held (λ e. cc) (λ e. cc))
          (if_both IsConsistent opens _ _ v (set_error-IsConsistent open_failed c)))
