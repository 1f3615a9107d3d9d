-- ===== src/Connection/Auth.antt =====
-- Proving to own a hidden service: packets on `AuthHiddenServiceChannel`
-- (src/libtego/source/protocol/AuthHiddenServiceChannel.cpp).
use ricochet_irc.Prelude.{
  ℕ, Bool, true, false, not, ◌&&◌, ◌||◌, [], ◌∷◌, ◌++◌, Option, none, some, put, if◌then◌else◌,
  ◌==◌, length,
}
use ricochet_irc.Wire.Frame.{Bytes}
use ricochet_irc.Connection.State.{
  Conn, Channel, Text, unknown, known_contact, has_authenticated, hidden_service_auth,
  known_to_peer, is_inbound, is_purpose, grant_authentication, set_purpose,
}
use ricochet_irc.Connection.Channels.{send_message, close_channel}
use ricochet_irc.Connection.Requests.{Env, AuthPacket, proof, result, unrecognized, cookie_size}

-- TEGO_ED25519_SIGNATURE_SIZE
abbrev pub signature_size : ℕ
signature_size = 64

-- ".onion"
abbrev pub onion : Text
onion = b'.' ∷ b'o' ∷ b'n' ∷ b'i' ∷ b'o' ∷ b'n' ∷ []

-- The proof is right for the cookies of this channel.
unfoldable pub proof_accepted : Env → Channel → Bytes → Bytes → Bool
proof_accepted env ch signature service_id =
    length signature == signature_size && env.verifies ch service_id signature

abbrev pub claim : Env → Text → Conn → Conn
claim env name c =
    if env.recognizes name && is_purpose c.purpose unknown
    then (set_purpose known_contact c).0
    else c

-- `grantAuthentication`, and the slot of its signal `authenticated`
-- (`UserIdentity::handleIncomingAuthedConnection`): a contact of this name claims the connection.
unfoldable pub grant_service : Env → Text → Conn → Conn
grant_service env name c =
    if has_authenticated hidden_service_auth c
    then c
    else claim env name (grant_authentication hidden_service_auth name c)

unfoldable pub accept_proof : Env → ℕ → Channel → Text → Conn → Conn
accept_proof env id ch name c =
    let c' = grant_service env name c in
    let c'' = record c' { channels = put id (record ch { is_accepted = true }) c'.channels } in
    close_channel id
      (send_message id (env.serialize_auth_result true (is_purpose c''.purpose known_contact))
        c'').0

unfoldable pub refuse_proof : Env → ℕ → Channel → Conn → Conn
refuse_proof env id ch c =
    let c' = record c { channels = put id (record ch { is_accepted = false }) c.channels } in
    close_channel id (send_message id (env.serialize_auth_result false false) c').0

-- `AuthHiddenServiceChannel::handleProof`.
unfoldable pub handle_proof : Env → ℕ → Channel → Bytes → Bytes → Conn → Conn
handle_proof env id ch signature service_id c =
    if not (is_inbound ch.direction)
    then close_channel id c
    else if not (length ch.client_cookie == cookie_size)
        || not (length ch.server_cookie == cookie_size)
    then close_channel id c
    else if proof_accepted env ch signature service_id
    then accept_proof env id ch (service_id ++ onion) c
    else refuse_proof env id ch c

-- `AuthHiddenServiceChannel::handleResult`.
unfoldable pub handle_result : ℕ → Channel → Bool → Bool → Conn → Conn
handle_result id ch accepted is_known c =
    if is_inbound ch.direction
    then close_channel id c
    else close_channel id (
        if accepted
        then (if is_known
            then grant_authentication known_to_peer []
                (record c { channels = put id (record ch { is_accepted = true }) c.channels })
            else record c { channels = put id (record ch { is_accepted = true }) c.channels })
        else record c { channels = put id (record ch { is_accepted = false }) c.channels })

-- `AuthHiddenServiceChannel::receivePacket`; `none` is a packet that does not parse.
unfoldable pub receive_auth : Env → ℕ → Channel → Option AuthPacket → Conn → Conn
receive_auth env id ch none c = close_channel id c
receive_auth env id ch (some (proof signature service_id)) c =
    handle_proof env id ch signature service_id c
receive_auth env id ch (some (result accepted is_known)) c = handle_result id ch accepted is_known c
receive_auth env id ch (some unrecognized) c = close_channel id c
