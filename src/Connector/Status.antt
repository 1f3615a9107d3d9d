-- ===== src/Connector/Status.antt =====
-- The state of an `OutboundConnector` (src/libtego/source/protocol/OutboundConnector.h,
-- OutboundConnector.cpp): its status, its errors, and how it gives up.
use ricochet_irc.Prelude.{
  ℕ, ◌+◌, ◌-◌, Bool, true, false, not, ◌&&◌, List, [], ◌∷◌, if◌then◌else◌, ltb, leb, length, drop,
  same,
}
use ricochet_irc.Connection.State.{Text}

pub data Status : Type 0 where
  inactive connecting initializing authenticating ready error : Status

pub data ErrorMessage : Type 0 where
  no_message invalid_host already_used not_onion unexpected_state : ErrorMessage
  version_negotiation_failed authentication_failed open_failed : ErrorMessage

-- What the connector does to others, newest first in `log`.
pub data Action : Type 0 where
  status_changed is_active_changed emits_ready closes_connection : Action
  connects_socket : Text → ℕ → Action

-- A socket belongs to the connector until a connection is made of it. `has_private_key` is a key
-- that is loaded and private; `retry_timer` is running or not.
pub record Connector : Type 0 where
  pub has_socket : Bool
  pub has_connection : Bool
  pub hostname : Text
  pub port : ℕ
  pub status : Status
  pub has_private_key : Bool
  pub error_message : ErrorMessage
  pub retry_timer : Bool
  pub error_retry_count : ℕ
  pub log : List Action

abbrev pub new_connector : Connector
new_connector = record {
  has_socket = false;
  has_connection = false;
  hostname = [];
  port = 0;
  status = inactive;
  has_private_key = false;
  error_message = no_message;
  retry_timer = false;
  error_retry_count = 0;
  log = [];
}

-- `status > Inactive && status < Ready`.
abbrev pub is_active : Status → Bool
is_active connecting = true
is_active initializing = true
is_active authenticating = true
is_active _ = false

abbrev pub is_status : Status → Status → Bool
is_status inactive inactive = true
is_status connecting connecting = true
is_status initializing initializing = true
is_status authenticating authenticating = true
is_status ready ready = true
is_status error error = true
is_status _ _ = false

abbrev pub is_same : Bool → Bool → Bool
is_same true b = b
is_same false b = not b

abbrev pub note : Action → Connector → Connector
note a c = record c { log = a ∷ c.log }

unfoldable pub set_status : Status → Connector → Connector
set_status value c =
    if is_status c.status value
    then c
    else let c' = note status_changed (record c { status = value }) in
      if is_same (is_active c.status) (is_active value) then c' else note is_active_changed c'

-- `OutboundConnectorPrivate::abort`.
unfoldable pub drop_attempt : Connector → Connector
drop_attempt c =
    let c' =
      if c.has_connection
      then note closes_connection (record c { has_connection = false })
      else c in
    record c' { has_socket = false }

-- `OutboundConnector::abort`.
unfoldable pub abort : Connector → Connector
abort c = set_status inactive (record (drop_attempt c) {
  hostname = [];
  port = 0;
  error_retry_count = 0;
  retry_timer = false;
  error_message = no_message;
})

-- `setError`: after the sixth error the timer is not started.
unfoldable pub set_error : ErrorMessage → Connector → Connector
set_error message c =
    let c' = set_status error (record (drop_attempt c) { error_message = message }) in
    let c'' = record c' { error_retry_count = c'.error_retry_count + 1 } in
    if ltb 5 c''.error_retry_count then c'' else record c'' { retry_timer = true }

-- A caller's mistake: the status alone changes, and nothing is given up.
abbrev pub refuse : ErrorMessage → Connector → Connector × Bool
refuse message c = (set_status error (record c { error_message = message }), false)

-- `QString::endsWith`.
abbrev pub ends_with : Text → Text → Bool
ends_with suffix s =
    leb (length suffix) (length s) && same (drop (length s - length suffix) s) suffix

abbrev pub is_empty : Text → Bool
is_empty [] = true
is_empty (x ∷ xs) = false
