-- ===== src/Contacts/Assignment.antt =====
-- `ContactUser::assignConnection` (src/libtego/source/core/ContactUser.cpp).
use ricochet_irc.Prelude.{
  List, ℕ, Bool, true, false, not, ◌&&◌, ◌||◌, [], ◌∷◌, none, some, if◌then◌else◌, ltb, ◌==◌,
}
use ricochet_irc.Connection.State.{
  Conn, Text, is_client, is_connected, is_purpose, known_contact, outbound_request, Purpose,
  set_purpose, has_authenticated, has_authenticated_as, hidden_service_auth, known_to_peer,
}
use ricochet_irc.Connection.Channels.{close}
use ricochet_irc.Connector.Status.{authenticating, is_status, is_same}
use ricochet_irc.Connector.Attempt.{take_connection}
use ricochet_irc.Contacts.User.{
  Contact, Held, has_connection, has_request, update_status, update_outgoing_socket, accept_request,
  UserStatus, pending, on_disconnected, on_connected, with_connection,
}

-- `QString::compare` below 0.
unfoldable pub less : Text → Text → Bool
less [] [] = false
less [] (y ∷ ys) = true
less (x ∷ xs) [] = false
less (x ∷ xs) (y ∷ ys) = ltb x y || ((x == y) && less xs ys)

abbrev pub is_outbound : Held → Bool
is_outbound h = is_client h.conn.side

abbrev pub prefer_outbound : Contact → Bool
prefer_outbound c = less c.hostname c.identity_hostname

-- `connection->close()`, behind which the contact does not refer to it.
abbrev pub close_held : Held → Contact → Contact
close_held h c = record c { let_go = record h { conn = close h.conn } ∷ c.let_go }

unfoldable pub clear_connection : Contact → Contact
clear_connection c = elim c.connection [
  | none ↦ c
  | some h ↦ close_held h (record c { connection = none })
]

-- A test of the contact's connection, if there is one.
abbrev pub connection_is : (Held → Bool) → Contact → Bool
connection_is test c = elim c.connection [ none ↦ false | some h ↦ test h ]

abbrev pub clear_if : Bool → Contact → Contact
clear_if b c = if b then clear_connection c else c

-- The outbound attempt has sent its authentication.
abbrev pub is_authenticating : Contact → Bool
is_authenticating c = elim c.outgoing_socket [
  | none ↦ false
  | some k ↦ is_status k.status authenticating
]

abbrev pub assign_with : Purpose → Held → Contact → Contact
assign_with purpose new c =
    let (conn', is_set) = set_purpose purpose new.conn in
    if is_set
    then record c { connection = some (record new { conn = conn' }) }
    else close_held (record new { conn = conn' }) c

unfoldable pub attach : Held → Contact → Contact
attach new c =
    if has_request c && is_outbound new
    then assign_with outbound_request new c
    else assign_with known_contact new (if has_request c then accept_request c else c)

-- The old connection is dead, goes the same direction, or is more than 30 seconds old; `age` is its
-- age in seconds.
unfoldable pub clear_outdated : ℕ → Held → Contact → Contact
clear_outdated age new c =
    let c1 = clear_if (connection_is (λ h. not (is_connected h.conn)) c) c in
    let c2 = clear_if (connection_is (λ h. is_same (is_outbound new) (is_outbound h)) c1) c1 in
    clear_if (connection_is (λ h. ltb 30 age) c2) c2

unfoldable pub resolve : Held → Contact → Contact
resolve new c =
    if has_connection c && not (is_same (is_outbound new) (prefer_outbound c))
    then close_held new c
    else let c' = clear_connection c in
      if not (is_outbound new) && (is_authenticating c' && prefer_outbound c')
      then close_held new c'
      else if has_connection c'
      then close_held new c'
      else attach new c'

unfoldable pub assign_connection : ℕ → Held → Contact → Contact
assign_connection age new c =
    if connection_is (λ h. h.key == new.key) c
    then c
    else if is_purpose new.conn.purpose known_contact
        || (not (is_connected new.conn)
            || not (has_authenticated_as hidden_service_auth c.hostname new.conn))
    then close_held new c
    else let known = has_authenticated known_to_peer new.conn in
      if is_outbound new && (not (has_request c) && not known)
      then update_outgoing_socket (update_status (close_held new c))
      else let c' = if is_outbound new && (has_request c && known) then accept_request c else c in
        resolve new (clear_outdated age new c')

-- The slot of `OutboundConnector::ready`; the connector has a connection then.
unfoldable pub on_ready : ℕ → Held → Contact → Contact
on_ready age new c = elim c.outgoing_socket [
  | none ↦ c
  | some k ↦ assign_connection age new (record c { outgoing_socket = some (take_connection k).0 })
]

-- The constructor.
unfoldable pub new_contact : Text → Text → UserStatus → Contact
new_contact hostname identity_hostname status = update_outgoing_socket (
    update_status (record {
      hostname = hostname;
      identity_hostname = identity_hostname;
      status = status;
      connection = none;
      outgoing_socket = none;
      request = none;
      let_go = [];
      signals = [];
    }))

-- `createContactRequest`, where no incoming request matches.
abbrev create_request : Contact → Contact
create_request c = update_status (record c { request = some pending })

pub data Event : Type 0 where
  -- With the age of the connection that the contact has.
  assigns readies : ℕ → Held → Event
  -- The connection of the contact moves on by itself.
  evolves : (Conn → Conn) → Event
  -- The queued slot, with what it does to the connection to send a request.
  notices : (Conn → Conn) → Event
  disconnects requests accepts : Event

unfoldable pub step : Event → Contact → Contact
step (assigns age new) c = assign_connection age new c
step (readies age new) c = on_ready age new c
step (evolves f) c = with_connection f c
step (notices send_request) c = on_connected send_request c
step disconnects c = on_disconnected c
step requests c = create_request c
step accepts c = accept_request c

unfoldable pub run : List Event → Contact → Contact
run [] c = c
run (e ∷ es) c = run es (step e c)
