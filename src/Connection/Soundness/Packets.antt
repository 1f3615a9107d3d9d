-- ===== src/Connection/Soundness/Packets.antt =====
-- Every packet of the peer keeps a connection sound.
use ricochet_irc.Prelude.{
  ℕ, ◌≡◌, ◌++◌, ◌&&◌, ◌||◌, Bool, true, false, not, List, [], ◌∷◌, Option, none, some, Entries-find,
  find, put, arith, if_both, if_cases, option_both, if◌then◌else◌, length, ◌==◌,
}
use ricochet_irc.Wire.Frame.{Bytes}
use ricochet_irc.Connection.State.{
  Conn, Channel, Kind, Text, Status, control, auth_hidden_service, contact_request, known_contact,
  unknown, hidden_service_auth, known_to_peer, has_authenticated, grant_authentication, set_purpose,
  is_purpose, is_inbound,
}
use ricochet_irc.Connection.Channels.{send_message, close_channel}
use ricochet_irc.Connection.Requests.{
  Env, ControlPacket, AuthPacket, proof, result, unrecognized, handle_response, cookie_size,
}
use ricochet_irc.Connection.Control.{
  receive_control, handle_open_channel, handle_channel_result, handle_keep_alive,
  handle_enable_features,
}
use ricochet_irc.Connection.Auth.{
  receive_auth, handle_proof, handle_result, accept_proof, refuse_proof, grant_service, claim,
  proof_accepted, onion,
}
use ricochet_irc.Connection.Events.{
  on_packet, receive_packet, receive_response, reply_data, send_each,
}
use ricochet_irc.Connection.Soundness.{ChannelOk, IsSound, Proves}
use ricochet_irc.Connection.Soundness.Parts.{
  send_message-IsSound, write_packet-IsSound, close_channel-IsSound, Sound-put,
  grant_authentication-IsSound, set_purpose-IsSound,
}
use ricochet_irc.Connection.Soundness.Openings.{handle_open_channel-IsSound}
use ricochet_irc.Connection.Soundness.Results.{handle_channel_result-IsSound}

module _ {Proven : Text → Type 0} where
  receive_control-IsSound :
      (env : Env) (p : Option ControlPacket) (c : Conn)
      → IsSound Proven c
      → IsSound Proven (receive_control env p c)
  unfolding receive_control handle_keep_alive handle_enable_features
  receive_control-IsSound env none c s = close_channel-IsSound 0 c s
  receive_control-IsSound env (some p) c s =
      option_both (IsSound Proven) p.open_channel _ (λ m. handle_open_channel env m c)
        (option_both (IsSound Proven) p.channel_result _ (λ r. handle_channel_result env r c)
          (option_both (IsSound Proven) p.keep_alive _
            (λ requested. handle_keep_alive env requested c)
            (if_both (IsSound Proven) p.enable_features _ _ (send_message-IsSound 0 _ c s)
              (close_channel-IsSound 0 c s))
            λ requested _. if_both (IsSound Proven) requested _ _ (send_message-IsSound 0 _ c s) s)
          λ r _. handle_channel_result-IsSound env r c s)
        λ m _. handle_open_channel-IsSound env m c s

-- An entry of the table may change in the fields that soundness does not rest on.
accepted-ChannelOk :
    (c : Conn) (id : ℕ) (ch : Channel) (b : Bool)
    → ChannelOk c.side c.purpose id ch
    → ChannelOk c.side c.purpose id (record ch { is_accepted = b })
accepted-ChannelOk c id ch b ok = ground arith

module _ {Proven : Text → Type 0} where
  grant_service-IsSound :
      (env : Env) (name : Text) (c : Conn)
      → Proven name
      → IsSound Proven c
      → IsSound Proven (grant_service env name c)
  unfolding grant_service
  grant_service-IsSound env name c p s =
      let c' = grant_authentication hidden_service_auth name c in
      let s' = grant_authentication-IsSound hidden_service_auth name c (λ _. p) s in
      if_both (IsSound Proven) (has_authenticated hidden_service_auth c) c (claim env name c') s (
        if_both (IsSound Proven) (env.recognizes name && is_purpose c'.purpose unknown)
          (set_purpose known_contact c').0 c' (set_purpose-IsSound known_contact c' s') s')

grant_service-keeps :
    (env : Env) (name : Text) (c : Conn)
    → (c.purpose ≡ known_contact → (grant_service env name c).purpose ≡ known_contact)
      × ((grant_service env name c).side ≡ c.side)
unfolding grant_service grant_authentication set_purpose
grant_service-keeps env name c = (λ k. ground arith, ground arith)

granted-ChannelOk :
    (c c' : Conn) (id : ℕ) (ch : Channel)
    → (c.purpose ≡ known_contact → c'.purpose ≡ known_contact) × (c'.side ≡ c.side)
    → ChannelOk c.side c.purpose id ch
    → ChannelOk c'.side c'.purpose id (record ch { is_accepted = true })
granted-ChannelOk c c' id ch (keeps, side) ok = record {
  fits = ok.fits;
  is_control = ok.is_control;
  parity = rw side ok.parity;
  opened = ok.opened;
  for_contact = λ h. keeps (ok.for_contact h);
}

module _ {Proven : Text → Type 0} where
  accept_proof-IsSound :
      (env : Env) (id : ℕ) (ch : Channel) (name : Text) (c : Conn)
      → Proven name
      → IsSound Proven c
      → ChannelOk c.side c.purpose id ch
      → IsSound Proven (accept_proof env id ch name c)
  unfolding accept_proof
  accept_proof-IsSound env id ch name c p s ok =
      let c' = grant_service env name c in
      close_channel-IsSound id _ (
        send_message-IsSound id _ _ (
          Sound-put id (record ch { is_accepted = true }) c' (grant_service-IsSound env name c p s)
            (granted-ChannelOk c c' id ch (grant_service-keeps env name c) ok)))

  refuse_proof-IsSound :
      (env : Env) (id : ℕ) (ch : Channel) (c : Conn)
      → IsSound Proven c
      → ChannelOk c.side c.purpose id ch
      → IsSound Proven (refuse_proof env id ch c)
  unfolding refuse_proof
  refuse_proof-IsSound env id ch c s ok = close_channel-IsSound id _ (
      send_message-IsSound id _ _ (
        Sound-put id (record ch { is_accepted = false }) c s (accepted-ChannelOk c id ch false ok)))

  handle_proof-IsSound :
      (env : Env) (id : ℕ) (ch : Channel) (signature service_id : Bytes) (c : Conn)
      → Proves Proven env
      → IsSound Proven c
      → ChannelOk c.side c.purpose id ch
      → IsSound Proven (handle_proof env id ch signature service_id c)
  unfolding handle_proof
  handle_proof-IsSound env id ch signature service_id c proves s ok =
      let name = service_id ++ onion in
      let closed = close_channel-IsSound id c s in
      if_both (IsSound Proven) (not (is_inbound ch.direction)) _ _ closed (
        if_both (IsSound Proven)
          (not (length ch.client_cookie == cookie_size)
            || not (length ch.server_cookie == cookie_size))
          _ _ closed
          (if_cases (IsSound Proven) (proof_accepted env ch signature service_id)
            (accept_proof env id ch name c) (refuse_proof env id ch c)
            (λ v. accept_proof-IsSound env id ch name c (proves ch signature service_id v) s ok)
            (λ _. refuse_proof-IsSound env id ch c s ok)))

  handle_result-IsSound :
      (id : ℕ) (ch : Channel) (accepted is_known : Bool) (c : Conn)
      → IsSound Proven c
      → ChannelOk c.side c.purpose id ch
      → IsSound Proven (handle_result id ch accepted is_known c)
  unfolding handle_result
  handle_result-IsSound id ch accepted is_known c s ok =
      let at = λ (b : Bool).
        Sound-put id (record ch { is_accepted = b }) c s (accepted-ChannelOk c id ch b ok) in
      if_both (IsSound Proven) (is_inbound ch.direction) _ _ (close_channel-IsSound id c s) (
        close_channel-IsSound id _ (
          if_both (IsSound Proven) accepted _ _
            (if_both (IsSound Proven) is_known _ _
              (grant_authentication-IsSound known_to_peer [] _ (λ e. absurd (cc)) (at true))
              (at true))
            (at false)))

  receive_auth-IsSound :
      (env : Env) (id : ℕ) (ch : Channel) (p : Option AuthPacket) (c : Conn)
      → Proves Proven env
      → IsSound Proven c
      → ChannelOk c.side c.purpose id ch
      → IsSound Proven (receive_auth env id ch p c)
  unfolding receive_auth
  receive_auth-IsSound env id ch none c proves s ok = close_channel-IsSound id c s
  receive_auth-IsSound env id ch (some (proof sig service)) c proves s ok =
      handle_proof-IsSound env id ch sig service c proves s ok
  receive_auth-IsSound env id ch (some (result accepted known)) c proves s ok =
      handle_result-IsSound id ch accepted known c s ok
  receive_auth-IsSound env id ch (some unrecognized) c proves s ok = close_channel-IsSound id c s

  handle_response-keeps :
      (r : Status) (id : ℕ) (ch : Channel) (c : Conn) (ch' : Channel) (c' : Conn)
      → IsSound Proven c
      → ChannelOk c.side c.purpose id ch
      → handle_response r ch c ≡ some (ch', c')
      → IsSound Proven c' × ChannelOk c'.side c'.purpose id ch'
  unfolding handle_response
  handle_response-keeps r id ch c ch' c' s ok e = ground arith

  receive_response-IsSound :
      (env : Env) (id : ℕ) (ch : Channel) (r : Option Status) (c : Conn)
      → IsSound Proven c
      → ChannelOk c.side c.purpose id ch
      → IsSound Proven (receive_response env id ch r c)
  unfolding receive_response
  receive_response-IsSound env id ch none c s ok = close_channel-IsSound id c s
  receive_response-IsSound env id ch (some r) c s ok =
      let taken : Channel × Conn → Conn =
        λ p. record (p.1) { channels = put id p.0 p.1.channels } in
      option_both (IsSound Proven) (handle_response r ch c) (close_channel id c) taken
        (close_channel-IsSound id c s)
        λ (ch', c') e.
          let kept = handle_response-keeps r id ch c ch' c' s ok e in
          Sound-put id ch' c' kept.0 kept.1

  send_each-IsSound :
      (id : ℕ) (ps : List Bytes) (c : Conn) → IsSound Proven c → IsSound Proven (send_each id ps c)
  unfolding send_each
  send_each-IsSound id [] c s = s
  send_each-IsSound id (p ∷ ps) c s =
      send_each-IsSound id ps (send_message id p c).0 (send_message-IsSound id p c s)

  reply_data-IsSound :
      (env : Env) (id : ℕ) (ch : Channel) (p : Bytes) (c : Conn)
      → IsSound Proven c
      → IsSound Proven (reply_data env id ch p c)
  unfolding reply_data
  reply_data-IsSound env id ch p c s =
      let r = env.reply_data ch id p in
      let s' = send_each-IsSound id r.0 c s in
      if_both (IsSound Proven) r.1 (close_channel id (send_each id r.0 c)) (send_each id r.0 c)
        (close_channel-IsSound id (send_each id r.0 c) s') s'

  receive_packet-IsSound :
      (env : Env) (id : ℕ) (ch : Channel) (p : Bytes) (c : Conn)
      → Proves Proven env
      → IsSound Proven c
      → ChannelOk c.side c.purpose id ch
      → IsSound Proven (receive_packet env id ch p c)
  unfolding receive_packet
  receive_packet-IsSound env id ch p c proves s ok = by_kind ch.kind
    where
      by_kind :
          (k : Kind)
          → IsSound Proven (elim k [
            | control ↦ receive_control env (env.parse p) c
            | auth_hidden_service ↦ receive_auth env id ch (env.parse_auth p) c
            | contact_request ↦ receive_response env id ch (env.parse_response p) c
            | _ ↦ reply_data env id ch p c
          ])
      by_kind control = receive_control-IsSound env (env.parse p) c s
      by_kind auth_hidden_service = receive_auth-IsSound env id ch (env.parse_auth p) c proves s ok
      by_kind contact_request = receive_response-IsSound env id ch (env.parse_response p) c s ok
      by_kind _ = reply_data-IsSound env id ch p c s

  pub on_packet-IsSound :
      (env : Env) (id : ℕ) (p : Bytes) (c : Conn)
      → Proves Proven env
      → IsSound Proven c
      → IsSound Proven (on_packet env id p c)
  unfolding on_packet
  on_packet-IsSound env id p c proves s =
      option_both (IsSound Proven) (find id c.channels) _
        (λ ch. if length p == 0 then close_channel id c else receive_packet env id ch p c)
        (if_both (IsSound Proven) (length p == 0) _ _ s (write_packet-IsSound id [] c s))
        λ ch e. if_both (IsSound Proven) (length p == 0) _ _ (close_channel-IsSound id c s) (
          receive_packet-IsSound env id ch p c proves s
            (Entries-find (ChannelOk c.side c.purpose) id c.channels ch s.entries e))
