-- ===== src/Tests/Peers.antt =====
-- Connections at concrete inputs (src/libtego/source/protocol).
use Prim.Native.String.{String}
use ricochet_irc.Prelude.{
  ℕ, ◌%◌, ◌≤◌, ◌≡◌, refl, true, false, not, List, [], ◌∷◌, ◌++◌, Option, none, some, Dict, find,
  contains, arith, pos, ◌==◌, zero, suc, same, ◌&&◌, if◌then◌else◌, All, ap, same→eq,
}
use ricochet_irc.Wire.Frame.{Bytes, next_packet, uint16_max}
use ricochet_irc.Wire.Handshake.{intro, server_handshake}
use ricochet_irc.Wire.Reader.{client_side, server_side, receive, read_packets, read_all}
use ricochet_irc.Connection.State.{
  Conn, Channel, Text, inbound, outbound, control, chat, known_contact, closed, undefined,
  hidden_service_auth, new_channel, has_authenticated, grant_authentication, set_purpose,
  purpose_allowed, same_kind, is_inbound,
}
use ricochet_irc.Connection.Channels
use ricochet_irc.Connection.Channels.{socket_disconnected}
use ricochet_irc.Connection.Ids
use ricochet_irc.Connection.Ids.{available_outbound_channel_id, is_valid_available_channel_id}
use ricochet_irc.Connection.Ids.Agreement.{IsOwn, available-valid}
use ricochet_irc.Connection.Ids.Stuck.{client_stuck}
use ricochet_irc.Connection.Requests
use ricochet_irc.Connection.Requests.{
  Env, ControlPacket, OpenChannel, ChannelResult, AuthPacket, proof,
}
use ricochet_irc.Connection.Control
use ricochet_irc.Connection.Control.{empty_packet, type_name}
use ricochet_irc.Connection.Auth
use ricochet_irc.Connection.Auth.{proof_accepted, onion}
use ricochet_irc.Connection.Events
use ricochet_irc.Connection.Events.{
  Event, opens, sets_purpose, receives, new_conn, run, step, start_client,
}
use ricochet_irc.Connection.Closing.{disconnected_empty}
use ricochet_irc.Connection.Serving.{Input, bytes, serve, accept, served_contact_proven}
use ricochet_irc.Connection.Soundness.{parity_of, Proves}
use ricochet_irc.Connection.Soundness.Histories.{
  authenticated_names_proven, contact_channels_authenticated, channel_numbers,
}

zeros : ℕ → Bytes
zeros zero = []
zeros (suc n) = 0 ∷ zeros n

abbrev silent : ControlPacket
silent = empty_packet

abbrev request_for : ℕ → String → ControlPacket
request_for id type = record silent {
  open_channel = some (record {
    channel_identifier = pos id;
    channel_type = type;
    client_cookie = 1 ∷ 2 ∷ 3 ∷ 4 ∷ 5 ∷ 6 ∷ 7 ∷ 8 ∷ 9 ∷ 10 ∷ 11 ∷ 12 ∷ 13 ∷ 14 ∷ 15 ∷ 16 ∷ [];
    request = none;
  });
}

abbrev signature : Bytes
signature =
    let row = λ (rest : Bytes). 9 ∷ 9 ∷ 9 ∷ 9 ∷ 9 ∷ 9 ∷ 9 ∷ 9 ∷ rest in
    row (row (row (row (row (row (row (row [])))))))

abbrev alice : Text
alice = b'a' ∷ b'l' ∷ b'i' ∷ []

-- A payload of one byte chooses the message: 1 asks for an authentication channel, 2 for a chat.
abbrev messages : Bytes → Option ControlPacket
messages [] = none
messages (x ∷ xs) =
    if x == 1
    then some (request_for 1 "im.ricochet.auth.hidden-service")
    else some (request_for 3 "im.ricochet.chat")

-- Only this signature of alice verifies.
abbrev world : Env
world = record {
  random_cookie = 1 ∷ 2 ∷ 3 ∷ 4 ∷ 5 ∷ 6 ∷ 7 ∷ 8 ∷ 9 ∷ 10 ∷ 11 ∷ 12 ∷ 13 ∷ 14 ∷ 15 ∷ 16 ∷ [];
  bounded = λ _. 0;
  answer = λ _ _. undefined;
  recognizes = λ name. same name (alice ++ onion);
  is_special = λ _. false;
  has_private_key = true;
  proof_packet = λ _. [];
  verifies = λ _ service_id s. same service_id alice && same s signature;
  serialize = λ _. 1 ∷ [];
  parse = messages;
  parse_auth = λ _. some (proof signature alice);
  parse_response = λ _. none;
  reply_data = λ _ _ _. ([], false);
  serialize_auth_result = λ _ _. 1 ∷ [];
}

abbrev IsAlice : Text → Type 0
IsAlice name = name ≡ alice ++ onion

world_proves : Proves IsAlice world
unfolding proof_accepted
world_proves ch signed service_id e =
    ap (λ name. name ++ onion) (same→eq service_id alice (ground arith))

-- A contact introduces itself, authenticates and opens a chat.
abbrev visit : List (Env × Input)
visit =
    (world, bytes intro)
    ∷ (world, bytes (0 ∷ 5 ∷ 0 ∷ 0 ∷ 1 ∷ 0 ∷ 5 ∷ []))
    ∷ (world, bytes (0 ∷ 1 ∷ 1 ∷ []))
    ∷ (world, bytes (0 ∷ 5 ∷ 0 ∷ 0 ∷ 2 ∷ []))
    ∷ []

abbrev visit_proves : All (λ i. Proves IsAlice i.0) visit
visit_proves = (world_proves, (world_proves, (world_proves, (world_proves, tt))))

abbrev open_chat : Channel
open_chat = record (new_channel chat inbound) { is_opened = true }

abbrev visited : Conn
visited = (serve visit (accept server_side [])).session

visit_opens : find 3 visited.channels ≡ some open_chat
unfolding serve receive server_handshake read_all read_packets next_packet Events.on_packet new_conn
    Events.receive_packet Control.receive_control Control.handle_open_channel
    is_valid_available_channel_id Control.handle_valid Control.open_inbound Requests.create
    Control.finish_inbound Requests.allow_inbound Requests.allow_auth Requests.allow_for_contact
    has_authenticated Channels.find_channel Channels.matches_direction Control.admit_channel
    Control.reply_result Auth.accept_proof Auth.grant_service Auth.handle_proof proof_accepted
    Auth.receive_auth Channels.close Channels.close_channel Channels.close_channel_object
    Channels.insert_channel Channels.invalidate Channels.on_invalidated Channels.send_message
    Channels.write_packet grant_authentication purpose_allowed set_purpose
visit_opens = refl

served_contact_proven_example :
    (visited.purpose ≡ known_contact)
    × (name : Text) × (visited.hidden_service ≡ some name)
    × IsAlice name
served_contact_proven_example =
    served_contact_proven IsAlice [] visit 3 open_chat visit_proves visit_opens refl

-- The same proof and the same request as packets on their channels.
abbrev packets : List (Env × Event)
packets =
    (world, receives 0 (1 ∷ [])) ∷ (world, receives 1 (1 ∷ [])) ∷ (world, receives 0 (2 ∷ [])) ∷ []

abbrev after : Conn
after = run packets (new_conn server_side [])

after_named : after.hidden_service ≡ some (alice ++ onion)
unfolding run step Events.on_packet new_conn Events.receive_packet Control.receive_control
    Control.handle_open_channel is_valid_available_channel_id Control.handle_valid
    Control.open_inbound Requests.create Control.finish_inbound Requests.allow_inbound
    Requests.allow_auth Requests.allow_for_contact has_authenticated Channels.find_channel
    Channels.matches_direction Control.admit_channel Control.reply_result Auth.accept_proof
    Auth.grant_service Auth.handle_proof proof_accepted Auth.receive_auth Channels.close
    Channels.close_channel Channels.close_channel_object Channels.insert_channel Channels.invalidate
    Channels.on_invalidated Channels.send_message Channels.write_packet grant_authentication
    purpose_allowed set_purpose
after_named = refl

after_opens : find 3 after.channels ≡ some open_chat
unfolding run step Events.on_packet new_conn Events.receive_packet Control.receive_control
    Control.handle_open_channel is_valid_available_channel_id Control.handle_valid
    Control.open_inbound Requests.create Control.finish_inbound Requests.allow_inbound
    Requests.allow_auth Requests.allow_for_contact has_authenticated Channels.find_channel
    Channels.matches_direction Control.admit_channel Control.reply_result Auth.accept_proof
    Auth.grant_service Auth.handle_proof proof_accepted Auth.receive_auth Channels.close
    Channels.close_channel Channels.close_channel_object Channels.insert_channel Channels.invalidate
    Channels.on_invalidated Channels.send_message Channels.write_packet grant_authentication
    purpose_allowed set_purpose
after_opens = refl

authenticated_names_proven_example : IsAlice (alice ++ onion)
authenticated_names_proven_example =
    authenticated_names_proven IsAlice server_side [] packets (alice ++ onion) (λ e. absurd (cc))
      (world_proves, (world_proves, (world_proves, tt))) after_named

contact_channels_authenticated_example :
    (after.purpose ≡ known_contact) × (has_authenticated hidden_service_auth after ≡ true)
contact_channels_authenticated_example =
    contact_channels_authenticated server_side [] packets 3 open_chat after_opens refl

channel_numbers_example :
    (3 ≤ uint16_max)
    × (same_kind control open_chat.kind ≡ (3 == 0))
    × (same_kind control open_chat.kind ≡ false → 3 % 2 ≡ parity_of after.side open_chat.direction)
    × (is_inbound open_chat.direction ≡ true → open_chat.is_opened ≡ true)
channel_numbers_example = channel_numbers server_side [] packets 3 open_chat after_opens

-- The chat and the control channel go when the socket does.
disconnected_empty_example :
    ((socket_disconnected after).channels ≡ [])
    × ((socket_disconnected after).socket ≡ closed)
    × ((socket_disconnected after).was_closed ≡ true)
    × ((socket_disconnected after).written ≡ after.written)
disconnected_empty_example = disconnected_empty after

-- A client with one channel of its own.
abbrev dialled : Conn
dialled = record (new_conn client_side (alice ++ onion)) {
  next_outbound_channel_id = 1;
  channels = (1, new_channel chat outbound) ∷ [];
}

abbrev steps : ℕ → ℕ
steps n = 1

dialled_picks :
    available_outbound_channel_id steps dialled
    ≡ (record dialled { next_outbound_channel_id = 5 }, some 3)
unfolding available_outbound_channel_id new_conn start_client grant_authentication has_authenticated
    Ids.check_id Ids.search_id Ids.start_id
dialled_picks = refl

abbrev no_channels : Dict Channel
no_channels = []

available-valid_example :
    (contains 3 dialled.channels ≡ false)
    × IsOwn client_side 3
    × (dialled.channels ≡ dialled.channels)
    × (is_valid_available_channel_id (pos 3) client_side no_channels ≡ not (contains 3 no_channels))
unfolding new_conn start_client grant_authentication has_authenticated
available-valid_example =
    available-valid steps dialled (record dialled { next_outbound_channel_id = 5 }) 3 no_channels
      dialled_picks

client_stuck_example :
    (available_outbound_channel_id (λ _. 0) dialled
      ≡ (record dialled { next_outbound_channel_id = 2 }, none))
    × (available_outbound_channel_id (λ _. 7) (record dialled { next_outbound_channel_id = 2 })
        ≡ (record dialled { next_outbound_channel_id = 2 }, none))
unfolding new_conn start_client grant_authentication has_authenticated
client_stuck_example =
    client_stuck (λ _. 0) (λ _. 7) dialled 1 refl refl refl refl refl (omega arith) refl
