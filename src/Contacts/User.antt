-- ===== src/Contacts/User.antt =====
-- The state of a `ContactUser` and of its `OutgoingContactRequest`
-- (src/libtego/source/core/ContactUser.cpp, OutgoingContactRequest.cpp).
use ricochet_irc.Prelude.{
  ℕ, Bool, true, false, not, ◌&&◌, List, [], ◌∷◌, Option, none, some, is_some, Dict, if◌then◌else◌,
  same,
}
use ricochet_irc.Connection.State.{
  Text, Conn, Channel, contact_request, same_kind, is_connected, is_purpose, known_contact,
  outbound_request, set_purpose,
}
use ricochet_irc.Connection.Channels.{close, close_channel}
use ricochet_irc.Connector.Status.{Connector, ready, is_status, new_connector}
use ricochet_irc.Connector.Attempt.{own, connect_to_host}

pub data UserStatus : Type 0 where
  online offline request_pending request_rejected : UserStatus

pub data RequestStatus : Type 0 where
  pending acknowledged accepted error rejected : RequestStatus

pub data ContactSignal : Type 0 where
  status_changed : UserStatus → ContactSignal
  -- Was the request accepted?
  response_received : Bool → ContactSignal
  contact_connected contact_disconnected request_refused : ContactSignal

-- A connection object; `key` stands for its address.
pub record Held : Type 0 where
  pub key : ℕ
  pub conn : Conn

-- `identity_hostname` is that of the local user. `let_go` are the connections that were closed and
-- are not referred to any more, newest first; so are `signals`.
pub record Contact : Type 0 where
  pub hostname : Text
  pub identity_hostname : Text
  pub status : UserStatus
  pub connection : Option Held
  pub outgoing_socket : Option Connector
  pub request : Option RequestStatus
  pub let_go : List Held
  pub signals : List ContactSignal

abbrev pub signal : ContactSignal → Contact → Contact
signal s c = record c { signals = s ∷ c.signals }

abbrev pub has_connection : Contact → Bool
has_connection c = is_some c.connection

abbrev pub has_request : Contact → Bool
has_request c = is_some c.request

abbrev pub same_status : UserStatus → UserStatus → Bool
same_status online online = true
same_status offline offline = true
same_status request_pending request_pending = true
same_status request_rejected request_rejected = true
same_status _ _ = false

abbrev is_refused : RequestStatus → Bool
is_refused error = true
is_refused rejected = true
is_refused _ = false

abbrev is_accepted : RequestStatus → Bool
is_accepted accepted = true
is_accepted _ = false

-- `m_connection && m_connection->isConnected()`.
abbrev pub is_live : Contact → Bool
is_live c = elim c.connection [ none ↦ false | some h ↦ is_connected h.conn ]

abbrev contact_port : ℕ
contact_port = 9878

-- A connector that is ready has been left over; it is replaced. The key of the identity is set on
-- each new one.
abbrev connector_of : Option Connector → Connector
connector_of none = record new_connector { has_private_key = true }
connector_of (some k) =
    if is_status k.status ready then record new_connector { has_private_key = true } else k

unfoldable pub update_outgoing_socket : Contact → Contact
update_outgoing_socket c =
    if not (same_status c.status offline) && not (same_status c.status request_pending)
    then record c { outgoing_socket = none }
    else if same c.hostname c.identity_hostname
    then c
    else record c {
      outgoing_socket =
          some (connect_to_host (own c.hostname) contact_port (connector_of c.outgoing_socket)).0;
    }

unfoldable pub new_status : Contact → UserStatus
new_status c = elim c.request [
  | some r ↦ if is_refused r then request_rejected else request_pending
  | none ↦
      if is_live c
      then online
      else if same_status c.status request_rejected
      then request_rejected
      else offline
]

unfoldable pub update_status : Contact → Contact
update_status c =
    if same_status (new_status c) c.status
    then c
    else update_outgoing_socket
        (signal (status_changed (new_status c)) (record c { status = new_status c }))

unfoldable pub request_removed : Contact → Contact
request_removed c = if has_request c then update_status (record c { request = none }) else c

abbrev pub with_purpose : Held → Held
with_purpose h = record h { conn = (set_purpose known_contact h.conn).0 }

unfoldable pub request_accepted : Contact → Contact
request_accepted c =
    if not (has_request c)
    then c
    else request_removed (elim c.connection [
      | none ↦ c
      | some h ↦ signal contact_connected (record c { connection = some (with_purpose h) })
    ])

-- `findChannel<ContactRequestChannel>`.
abbrev pub request_channel : Dict Channel → Option ℕ
request_channel [] = none
request_channel ((id, ch) ∷ rest) =
    if same_kind ch.kind contact_request then some id else request_channel rest

-- The channel closes; when it is gone, a connection for requests closes too.
unfoldable pub close_request : Conn → Conn
close_request conn = elim (request_channel conn.channels) [
  | none ↦ conn
  | some id ↦
      let conn' = close_channel id conn in
      if is_connected conn' && is_purpose conn'.purpose outbound_request then close conn' else conn'
]

abbrev close_request_channel : Contact → Contact
close_request_channel c = elim c.connection [
  | none ↦ c
  | some h ↦ record c { connection = some (record h { conn = close_request h.conn }) }
]

-- `OutgoingContactRequest::setStatus` of the states with a response.
abbrev set_response : RequestStatus → Contact → Contact
set_response r c =
    update_status (signal (response_received (is_accepted r)) (record c { request = some r }))

unfoldable pub remove_request : Contact → Contact
remove_request c = request_removed (close_request_channel c)

unfoldable pub accept_request : Contact → Contact
accept_request c = elim c.request [
  | none ↦ c
  | some r ↦
      remove_request (request_accepted (if is_accepted r then c else set_response accepted c))
]

-- `isConnected`.
abbrev pub is_contact_online : Contact → Bool
is_contact_online c = same_status c.status online

-- What is done with the connection of the contact, which the contact keeps.
abbrev pub with_connection : (Conn → Conn) → Contact → Contact
with_connection f c = elim c.connection [
  | none ↦ c
  | some h ↦ record c { connection = some (record h { conn = f h.conn }) }
]

-- `onConnected`, a queued slot. `send_request` is what `sendRequest` does to the connection: it opens a
-- channel there.
unfoldable pub on_connected : (Conn → Conn) → Contact → Contact
on_connected send_request c =
    if not (is_live c)
    then c
    else let sends : Bool = elim c.connection [
      | none ↦ false
      | some h ↦ has_request c && is_purpose h.conn.purpose outbound_request
    ] in
      let c1 = update_status (if sends then with_connection send_request c else c) in
      let c2 = if is_contact_online c1 then signal contact_connected c1 else c1 in
      if not (is_contact_online c2) && not (same_status c2.status request_pending)
      then with_connection close c2
      else c2

-- `ContactUser::onDisconnected`.
unfoldable pub on_disconnected : Contact → Contact
on_disconnected c =
    if is_live c
    then c
    else signal contact_disconnected (update_status (record c { connection = none }))
