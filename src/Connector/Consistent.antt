-- ===== src/Connector/Consistent.antt =====
-- What holds of an `OutboundConnector` between two events.
pub mod Operations
pub mod Histories
use ricochet_irc.Prelude.{
  ℕ, ◌≡◌, refl, Bool, true, false, not, ◌&&◌, ◌||◌, List, [], ◌∷◌, if◌then◌else◌, arith, ap, ◌∙◌,
  ◌≢◌, ◌⊎◌, inl, inr, ltb, ◌+◌, ◌==◌, if_both, if_cases, same,
}
use ricochet_irc.Connection.State.{Text}
use ricochet_irc.Connection.Auth.{onion}
use ricochet_irc.Connector.Status.{
  Connector, Status, ErrorMessage, inactive, connecting, initializing, authenticating, ready, error,
  is_active, is_status, new_connector, set_status, is_empty, ends_with, invalid_host, already_used,
  not_onion, unexpected_state, open_failed, authentication_failed, version_negotiation_failed,
  drop_attempt, abort, set_error, emits_ready, note,
}
use ricochet_irc.Connector.Attempt.{
  HostArgument, read_host, own, field, begin_attempt, connect_to_host, retry_after_error,
  take_connection, on_connected, start_authentication, Event, connects, aborts, takes, sets_key,
  socket_connected, timer_fires, connection_ready, version_failed, channel_opened, auth_successful,
  auth_failed, step, run,
}

-- Whether an attempt in this status has a connection already.
abbrev pub needs_connection : Status → Bool
needs_connection initializing = true
needs_connection authenticating = true
needs_connection ready = true
needs_connection _ = false

-- A socket or a connection, not both; a socket while connecting; a connection from then on; neither
-- while inactive.
pub record Consistent (status : Status) (has_socket has_connection : Bool) : Type 0 where
  pub one : has_socket ≡ true → has_connection ≡ false
  pub connects_by : status ≡ connecting → has_socket ≡ true
  pub waits_on : needs_connection status ≡ true → has_connection ≡ true
  pub idle : status ≡ inactive → (has_socket ≡ false) × (has_connection ≡ false)

abbrev pub IsConsistent : Connector → Type 0
IsConsistent c = Consistent c.status c.has_socket c.has_connection

is_status→eq : (a b : Status) → is_status a b ≡ true → a ≡ b
is_status→eq inactive inactive e = refl
is_status→eq connecting connecting e = refl
is_status→eq initializing initializing e = refl
is_status→eq authenticating authenticating e = refl
is_status→eq ready ready e = refl
is_status→eq error error e = refl
is_status→eq _ _ e = absurd (cc)

pub status-set_status : (s : Status) (c : Connector) → (set_status s c).status ≡ s
unfolding set_status
status-set_status s c = ground (arith, is_status→eq c.status s)

pub socket-set_status : (s : Status) (c : Connector) → (set_status s c).has_socket ≡ c.has_socket
unfolding set_status
socket-set_status s c = ground arith

pub connection-set_status :
    (s : Status) (c : Connector) → (set_status s c).has_connection ≡ c.has_connection
unfolding set_status
connection-set_status s c = ground arith

pub set_status-IsConsistent :
    (s : Status) (c : Connector)
    → Consistent s c.has_socket c.has_connection
    → IsConsistent (set_status s c)
set_status-IsConsistent s c v =
    rw (status-set_status s c, socket-set_status s c, connection-set_status s c) v

socket-drop_attempt : (c : Connector) → (drop_attempt c).has_socket ≡ false
unfolding drop_attempt
socket-drop_attempt c = refl

connection-drop_attempt : (c : Connector) → (drop_attempt c).has_connection ≡ false
unfolding drop_attempt
connection-drop_attempt c = ground arith

-- Nothing is held where neither a socket nor a connection is needed.
pub nothing_held : (s : Status) → (s ≡ error) ⊎ (s ≡ inactive) → Consistent s false false
nothing_held s h = ground arith

pub set_error-IsConsistent : (m : ErrorMessage) (c : Connector) → IsConsistent (set_error m c)
unfolding set_error
set_error-IsConsistent m c =
    let d = record (drop_attempt c) { error_message = m } in
    let v : IsConsistent (set_status error d) =
      set_status-IsConsistent error d
        (rw (connection-drop_attempt c, socket-drop_attempt c) (nothing_held error (inl refl))) in
    if_both IsConsistent (ltb 5 ((set_status error d).error_retry_count + 1)) _ _ v v

pub abort-IsConsistent : (c : Connector) → IsConsistent (abort c)
unfolding abort
abort-IsConsistent c =
    set_status-IsConsistent inactive _
      (rw (connection-drop_attempt c, socket-drop_attempt c) (nothing_held inactive (inr refl)))

pub connection-abort : (c : Connector) → (abort c).has_connection ≡ false
unfolding abort
connection-abort c = connection-set_status inactive _ ∙ connection-drop_attempt c

pub no_socket : (c : Connector) → IsConsistent c → c.has_connection ≡ true → c.has_socket ≡ false
no_socket c v held = ground arith

-- A connection and no socket suits every status but the two without a connection.
pub connection_held : (s : Status) → s ≢ connecting → s ≢ inactive → Consistent s false true
connection_held s a b = record {
  one = λ e. absurd (cc);
  connects_by = λ e. absurd (a e);
  waits_on = λ _. refl;
  idle = λ e. absurd (b e);
}

pub later :
    (s : Status) (c : Connector)
    → IsConsistent c
    → c.has_connection ≡ true
    → s ≢ connecting
    → s ≢ inactive
    → IsConsistent (set_status s c)
later s c v held a b =
    set_status-IsConsistent s c (rw (no_socket c v held, held) (connection_held s a b))
