-- ===== src/Tests/Races.antt =====
-- Connections between contacts at concrete inputs (src/libtego/source/core/ContactUser.cpp).
use ricochet_irc.Prelude.{
  ◌⊎◌, List, ◌∷◌, ◌≡◌, ◌==◌, refl, true, false, [], ◌++◌, none, some, codes, ℕ, arith,
}
use ricochet_irc.Wire.Reader.{Side, client_side, server_side}
use ricochet_irc.Connection.State.{
  Text, Conn, unknown, connected, has_authenticated, has_authenticated_as, matches_identity,
}
use ricochet_irc.Connection.Auth.{onion}
use ricochet_irc.Contacts.User.{Contact, Held, offline}
use ricochet_irc.Contacts.Assignment.{less}
use ricochet_irc.Connection.State.{
  closing, purpose_changed, known_contact, set_purpose, purpose_allowed,
}
use ricochet_irc.Connector.Status.{
  Connector, authenticating, ready, new_connector, abort, drop_attempt, set_status,
}
use ricochet_irc.Connector.Attempt.{connect_to_host, begin_attempt}
use ricochet_irc.Contacts.User.{update_status, update_outgoing_socket, new_status}
use ricochet_irc.Contacts.Assignment.{
  new_contact, Event, assigns, evolves, run, step, assign_connection, clear_outdated, resolve,
  clear_connection, attach,
}
use ricochet_irc.Contacts.Holding.{Fits}
use ricochet_irc.Contacts.Holding.Histories.{contact_connection-Fits}
use ricochet_irc.Contacts.Identifiers.{
  is_service_id, are_base32, captured, is_valid_id, hostname_from_id, id_from_hostname,
  hostname_from_id-id_from_hostname, hostname_from_id-cases,
}
use ricochet_irc.Contacts.Race.{IsUsable}
use ricochet_irc.Contacts.Race.Sides.{Settled, IsRacing, assign_both}
use ricochet_irc.Contacts.Race.Agreement.{race-agrees}

abbrev alice : Text
alice = codes "alice" ++ onion

abbrev bob : Text
bob = codes "bob" ++ onion

-- A connection that has authenticated as the peer.
abbrev link_to : Text → Side → Conn
link_to peer side = record {
  side = side;
  purpose = unknown;
  hidden_service = some peer;
  known_peer = some [];
  socket = connected;
  was_closed = false;
  next_outbound_channel_id = 0;
  channels = [];
  handshake_written = [];
  written = [];
  signals = [];
}

abbrev held : ℕ → Text → Side → Held
held key peer side = record { key = key; conn = link_to peer side }

abbrev authenticating_connector : Connector
authenticating_connector = record new_connector { status = authenticating }

abbrev ready_connector : Connector
ready_connector = record new_connector { status = ready; has_connection = true }

abbrev contact : Text → Text → Contact
contact hostname identity_hostname = record {
  hostname = hostname;
  identity_hostname = identity_hostname;
  status = offline;
  connection = none;
  outgoing_socket = none;
  request = none;
  let_go = [];
  signals = [];
}

bob-IsUsable : (key : ℕ) (side : Side) → IsUsable bob (held key bob side)
unfolding has_authenticated has_authenticated_as matches_identity
bob-IsUsable key side = record {
  connects = refl;
  names = refl;
  unassigned = refl;
  known = λ _. refl;
}

alice-IsUsable : (key : ℕ) (side : Side) → IsUsable alice (held key alice side)
unfolding has_authenticated has_authenticated_as matches_identity
alice-IsUsable key side = record {
  connects = refl;
  names = refl;
  unassigned = refl;
  known = λ _. refl;
}

-- A contact with an attempt that has sent its authentication.
abbrev trying : Text → Text → Contact
trying hostname identity_hostname = record (contact hostname identity_hostname) {
  outgoing_socket = some authenticating_connector;
}

at_alice :
    IsRacing authenticating_connector
      (held 1 bob client_side)
      (held 2 bob server_side)
      (trying bob alice)
at_alice = record {
  idle = record { no_connection = refl; no_request = refl; is_offline = refl };
  attempts = refl;
  out_usable = bob-IsUsable 1 client_side;
  inc_usable = bob-IsUsable 2 server_side;
  goes_out = refl;
  comes_in = refl;
  others = refl;
}

at_bob :
    IsRacing authenticating_connector
      (held 2 alice client_side)
      (held 1 alice server_side)
      (trying alice bob)
at_bob = record {
  idle = record { no_connection = refl; no_request = refl; is_offline = refl };
  attempts = refl;
  out_usable = alice-IsUsable 2 client_side;
  inc_usable = alice-IsUsable 1 server_side;
  goes_out = refl;
  comes_in = refl;
  others = refl;
}

-- Alice's name compares less, so the connection that Bob made stays. Either side has the
-- inbound one first: Bob's attempt holds it back, and Alice drops hers.
race-agrees_example :
    Settled 2 1 1 (trying bob alice) (
      assign_both
        (λ conn. conn)
        ready_connector
        false
        true
        3
        (held 1 bob client_side)
        (held 2 bob server_side)
        (trying bob alice))
    × Settled 2 1 2 (trying alice bob) (
        assign_both
          (λ conn. conn)
          ready_connector
          false
          true
          5
          (held 2 alice client_side)
          (held 1 alice server_side)
          (trying alice bob))
    × ((2 == 1) ≡ false)
unfolding less
race-agrees_example =
    race-agrees (λ conn. conn) (trying bob alice) (trying alice bob) (held 1 bob client_side)
      (held 2 bob server_side) (held 2 alice client_side) (held 1 alice server_side)
      authenticating_connector ready_connector authenticating_connector ready_connector false true
      false true 3 5 at_alice at_bob refl refl refl refl (λ e. cc) (omega arith) (omega arith)
      (λ _ _ _. refl) (λ _ _ _. refl)

-- A connection of Bob's reaches Alice's contact, and begins to close.
abbrev met : List Event
met = assigns 0 (held 2 bob server_side) ∷ evolves (λ conn. record conn { socket = closing }) ∷ []

abbrev met_connection : Held
met_connection = record {
  key = 2;
  conn = record (link_to bob server_side) {
    purpose = known_contact;
    socket = closing;
    signals = purpose_changed known_contact unknown ∷ [];
  };
}

met_connection-run : (run met (new_contact bob alice offline)).connection ≡ some met_connection
unfolding run step new_contact update_status update_outgoing_socket new_status connect_to_host
    begin_attempt abort drop_attempt set_status assign_connection clear_outdated resolve
    clear_connection attach set_purpose purpose_allowed has_authenticated has_authenticated_as
    matches_identity less
met_connection-run = refl

contact_connection-Fits_example : Fits bob met_connection
contact_connection-Fits_example =
    contact_connection-Fits bob alice offline met met_connection
      (tt, ((λ conn. record { service = refl; purpose = refl }), tt)) met_connection-run

abbrev carols_service : Text
carols_service = codes "abcdefghijklmnopqrstuvwxyz234567abcdefghijklmnopqrstuvwx"

hostname_from_id-id_from_hostname_example :
    (id_from_hostname (λ t. t) (carols_service ++ onion) ≡ codes "ricochet:" ++ carols_service)
    × (hostname_from_id (id_from_hostname (λ t. t) (carols_service ++ onion))
        ≡ carols_service ++ onion)
unfolding are_base32
hostname_from_id-id_from_hostname_example =
    hostname_from_id-id_from_hostname (λ t. t) carols_service refl refl

hostname_from_id-cases_example :
    (hostname_from_id (codes "ricochet:abc") ≡ [])
    ⊎ ((s : Text) × (is_service_id s ≡ true)
        × (hostname_from_id (codes "ricochet:abc") ≡ s ++ onion))
hostname_from_id-cases_example = hostname_from_id-cases (codes "ricochet:abc")

-- A longer text has a match too, and is an identifier for the program.
longer_id_valid : is_valid_id (codes "x ricochet:" ++ (carols_service ++ codes "zzz")) ≡ true
unfolding captured are_base32
longer_id_valid = refl
