-- ===== src/Connector/Pauses.antt =====
-- The socket of an attempt: when it dials, and how long it waits behind a failure
-- (src/libtego/source/tor/TorSocket.cpp). `QAbstractSocket` and the Tor control connection are
-- outside.
pub mod Bounds
use ricochet_irc.Prelude.{
  ℕ, suc, ◌+◌, ◌≤◌, ◌≡◌, refl, Bool, true, false, not, ◌&&◌, ◌||◌, List, [], ◌∷◌, Option, none,
  some, if◌then◌else◌, leb, ◌==◌, arith, is_some, if_both, if_cases,
}
use ricochet_irc.Connection.State.{Text}
use ricochet_irc.Connector.Status.{is_empty, is_same}

-- `connect_timer` holds the seconds that the running timer was started with. `dials` are the calls
-- of `QAbstractSocket::connectToHost`, newest first.
pub record TorSocket : Type 0 where
  pub host : Text
  pub port : ℕ
  pub connect_timer : Option ℕ
  pub reconnect_enabled : Bool
  pub max_interval : ℕ
  pub connect_attempts : ℕ
  pub dials : List (Text × ℕ)

-- What is outside: is Tor connected, and is the socket unconnected?
pub record Network : Type 0 where
  pub has_connectivity : Bool
  pub is_unconnected : Bool

abbrev pub min_of : ℕ → ℕ → ℕ
min_of a b = if leb a b then a else b

unfoldable pub reconnect_interval : ℕ → ℕ → ℕ
reconnect_interval connect_attempts max_interval =
    min_of
      (if leb connect_attempts 10
        then 30
        else if leb connect_attempts 15
        then 60
        else if leb connect_attempts 20
        then 120
        else max_interval)
      max_interval

abbrev pub interval_of : TorSocket → ℕ
interval_of s = reconnect_interval s.connect_attempts s.max_interval

unfoldable pub connect_socket : Network → Text → ℕ → TorSocket → TorSocket
connect_socket net host port s =
    let s' = record s { host = host; port = port } in
    if not net.has_connectivity then s' else record s' { dials = (host, port) ∷ s.dials }

unfoldable pub reconnect : Network → TorSocket → TorSocket
reconnect net s =
    if not net.has_connectivity || not s.reconnect_enabled
    then s
    else let s' = record s { connect_timer = none } in
      if not (is_empty s.host) && not (s.port == 0) then connect_socket net s.host s.port s' else s'

unfoldable pub set_reconnect_enabled : Network → Bool → TorSocket → TorSocket
set_reconnect_enabled net enabled s =
    if is_same enabled s.reconnect_enabled
    then s
    else if enabled
    then reconnect net (record s { reconnect_enabled = true; connect_attempts = 0 })
    else record s { reconnect_enabled = false; connect_timer = none }

unfoldable pub reset_attempts : TorSocket → TorSocket
reset_attempts s =
    let s' = record s { connect_attempts = 0 } in
    if is_some s.connect_timer then record s' { connect_timer = some (interval_of s') } else s'

unfoldable pub connectivity_changed : Network → TorSocket → TorSocket
connectivity_changed net s =
    if net.has_connectivity
    then (if net.is_unconnected then reconnect net s else s)
    else record s { connect_timer = none; connect_attempts = 0 }

unfoldable pub on_failed : TorSocket → TorSocket
on_failed s =
    if s.reconnect_enabled && not (is_some s.connect_timer)
    then (let s' = record s { connect_attempts = s.connect_attempts + 1 } in
        record s' { connect_timer = some (interval_of s') })
    else s

-- `timer_fires` is the timeout of the timer, which is stopped then.
pub data Event : Type 0 where
  connects : Text → ℕ → Event
  enables : Bool → Event
  resets changes_connectivity fails timer_fires : Event

unfoldable pub step : Network → Event → TorSocket → TorSocket
step net (connects host port) s = connect_socket net host port s
step net (enables b) s = set_reconnect_enabled net b s
step net resets s = reset_attempts s
step net changes_connectivity s = connectivity_changed net s
step net fails s = on_failed s
step net timer_fires s = reconnect net (record s { connect_timer = none })

unfoldable pub run : List (Network × Event) → TorSocket → TorSocket
run [] s = s
run ((net, e) ∷ rest) s = run rest (step net e s)

abbrev pub new_socket : TorSocket
new_socket = record {
  host = [];
  port = 0;
  connect_timer = none;
  reconnect_enabled = true;
  max_interval = 600;
  connect_attempts = 0;
  dials = [];
}
