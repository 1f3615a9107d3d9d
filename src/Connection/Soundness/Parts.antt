-- ===== src/Connection/Soundness/Parts.antt =====
-- The operations that shrink the table or leave it alone keep a connection sound.
use mathlib.Core.Path.{subst}
use ricochet_irc.Prelude.{
  ℕ, ◌≡◌, refl, Bool, true, false, [], ◌∷◌, Dict, Entries-remove, Entries-put, Entries-mono, find,
  put, remove, arith, if_both, if_cases, option_both, is_some, if◌then◌else◌,
}
use ricochet_irc.Wire.Frame.{Bytes}
use ricochet_irc.Wire.Reader.{Side}
use ricochet_irc.Connection.State.{
  Conn, Channel, Kind, Text, Purpose, SocketState, control, auth_hidden_service, auth_successful,
  auth_failed, channel_invalidated, connection_closed, closed, is_connected, is_purpose,
  AuthenticationType, hidden_service_auth, known_to_peer, unknown, known_contact, outbound_request,
  inbound_request, set_purpose, purpose_allowed, has_authenticated, purpose_changed, is_client,
  grant, grant_authentication, authenticated, emit,
}
use ricochet_irc.Connection.Channels.{
  write_packet, send_message, close, on_invalidated, invalidate, close_channel_object,
  close_channel, close_each, close_all_channels, socket_disconnected, abort, close_immediately,
  on_unknown_purpose_timeout,
}
use ricochet_irc.Connection.Soundness.{ChannelOk, IsSound}

module _ {Proven : Text → Type 0} where
  pub write_packet-IsSound :
      (id : ℕ) (p : Bytes) (c : Conn) → IsSound Proven c → IsSound Proven (write_packet id p c).0
  unfolding write_packet
  write_packet-IsSound id p c s = ground arith

  pub send_message-IsSound :
      (id : ℕ) (p : Bytes) (c : Conn) → IsSound Proven c → IsSound Proven (send_message id p c).0
  unfolding send_message
  send_message-IsSound id p c s =
      if_both (λ (r : Conn × Bool). IsSound Proven r.0) _ (c, false) (write_packet id p c) s
        (write_packet-IsSound id p c s)

  pub close-IsSound : (c : Conn) → IsSound Proven c → IsSound Proven (close c)
  unfolding close
  close-IsSound c s = ground arith

  pub on_invalidated-IsSound :
      (ch : Channel) (c : Conn) → IsSound Proven c → IsSound Proven (on_invalidated ch c)
  unfolding on_invalidated
  on_invalidated-IsSound ch c s = by_kind ch.kind
    where
      by_kind :
          (k : Kind)
          → IsSound Proven (elim k [
            | control ↦ close c
            | auth_hidden_service ↦ emit (if ch.is_accepted then auth_successful else auth_failed) c
            | _ ↦ c
          ])
      by_kind control = close-IsSound c s
      by_kind auth_hidden_service = s
      by_kind _ = s

  -- Taking an entry off the table.
  pub Sound-remove :
      (id : ℕ) (c : Conn)
      → IsSound Proven c
      → IsSound Proven (record c { channels = remove id c.channels })
  Sound-remove id c s = record {
    entries = Entries-remove (ChannelOk c.side c.purpose) id c.channels s.entries;
    contact_known = s.contact_known;
    proven = s.proven;
    requester = s.requester;
    requested = s.requested;
  }

  -- Putting one on it.
  pub Sound-put :
      (id : ℕ) (ch : Channel) (c : Conn)
      → IsSound Proven c
      → ChannelOk c.side c.purpose id ch
      → IsSound Proven (record c { channels = put id ch c.channels })
  Sound-put id ch c s ok = record {
    entries = Entries-put (ChannelOk c.side c.purpose) id ch c.channels ok s.entries;
    contact_known = s.contact_known;
    proven = s.proven;
    requester = s.requester;
    requested = s.requested;
  }

  pub invalidate-IsSound :
      (id : ℕ) (ch : Channel) (c : Conn) → IsSound Proven c → IsSound Proven (invalidate id ch c)
  unfolding invalidate
  invalidate-IsSound id ch c s =
      let c' = emit (channel_invalidated id) c in
      Sound-remove id (on_invalidated ch c') (on_invalidated-IsSound ch c' s)

  pub close_channel_object-IsSound :
      (id : ℕ) (ch : Channel) (c : Conn)
      → IsSound Proven c
      → IsSound Proven (close_channel_object id ch c)
  unfolding close_channel_object
  close_channel_object-IsSound id ch c s =
      if_both (IsSound Proven) (is_connected c) (invalidate id ch (write_packet id [] c).0)
        (invalidate id ch c) (invalidate-IsSound id ch _ (write_packet-IsSound id [] c s))
        (invalidate-IsSound id ch c s)

  pub close_channel-IsSound :
      (id : ℕ) (c : Conn) → IsSound Proven c → IsSound Proven (close_channel id c)
  unfolding close_channel
  close_channel-IsSound id c s =
      option_both (IsSound Proven) (find id c.channels) c (λ ch. close_channel_object id ch c) s
        (λ ch e. close_channel_object-IsSound id ch c s)

  close_each-IsSound :
      (m : Dict Channel) (c : Conn) → IsSound Proven c → IsSound Proven (close_each m c)
  unfolding close_each
  close_each-IsSound [] c s = s
  close_each-IsSound ((id, ch) ∷ m) c s =
      close_each-IsSound m (close_channel_object id ch c) (close_channel_object-IsSound id ch c s)

  pub socket_disconnected-IsSound :
      (c : Conn) → IsSound Proven c → IsSound Proven (socket_disconnected c)
  unfolding socket_disconnected close_all_channels
  socket_disconnected-IsSound c s =
      let c' = record c { socket = closed } in
      let c'' = emit connection_closed (record c' { was_closed = true }) in
      close_each-IsSound (if c.was_closed then c' else c'').channels
        (if c.was_closed then c' else c'') (if_both (IsSound Proven) c.was_closed c' c'' s s)

  pub abort-IsSound : (c : Conn) → IsSound Proven c → IsSound Proven (abort c)
  unfolding abort
  abort-IsSound c s = by_socket c.socket
    where
      by_socket :
          (k : SocketState) → IsSound Proven (elim k [ closed ↦ c | _ ↦ socket_disconnected c ])
      by_socket closed = s
      by_socket _ = socket_disconnected-IsSound c s

  pub close_immediately-IsSound :
      (c : Conn) → IsSound Proven c → IsSound Proven (close_immediately c)
  unfolding close_immediately
  close_immediately-IsSound c s =
      let c' = abort c in
      if_both (IsSound Proven) c'.was_closed c'
        (emit connection_closed (record c' { was_closed = true })) (abort-IsSound c s)
        (abort-IsSound c s)

  pub purpose_timeout-IsSound :
      (c : Conn) → IsSound Proven c → IsSound Proven (on_unknown_purpose_timeout c)
  unfolding on_unknown_purpose_timeout
  purpose_timeout-IsSound c s =
      if_both (IsSound Proven) (is_purpose c.purpose unknown) (close c) c (close-IsSound c s) s

  grant-IsSound :
      (type : AuthenticationType) (name : Text) (c : Conn)
      → (type ≡ hidden_service_auth → Proven name)
      → IsSound Proven c
      → IsSound Proven (grant type name c)
  grant-IsSound hidden_service_auth name c p s = record {
    entries = s.entries;
    contact_known = λ _. refl;
    proven = λ other e. let same : name ≡ other = cc in subst Proven same (p refl);
    requester = s.requester;
    requested = s.requested;
  }
  grant-IsSound known_to_peer name c p s = s

  pub grant_authentication-IsSound :
      (type : AuthenticationType) (name : Text) (c : Conn)
      → (type ≡ hidden_service_auth → Proven name)
      → IsSound Proven c
      → IsSound Proven (grant_authentication type name c)
  unfolding grant_authentication
  grant_authentication-IsSound type name c p s =
      if_both (IsSound Proven) (has_authenticated type c) c
        (emit (authenticated type name) (grant type name c)) s (grant-IsSound type name c p s)

-- What `setPurpose` asks for before it changes a purpose.
purpose_allowed-facts :
    (p : Purpose) (c : Conn)
    → is_purpose c.purpose p ≡ false
    → purpose_allowed p c ≡ true
    → (c.purpose ≡ known_contact → p ≡ known_contact)
      × (p ≡ known_contact → is_some c.hidden_service ≡ true)
      × (p ≡ outbound_request → is_client c.side ≡ true)
      × (p ≡ inbound_request → is_client c.side ≡ false)
unfolding purpose_allowed has_authenticated
purpose_allowed-facts p c e h =
    (λ k. ground arith, λ k. ground arith, λ k. ground arith, λ k. ground arith)

ChannelOk-purpose :
    (side : Side) (p q : Purpose)
    → (p ≡ known_contact → q ≡ known_contact)
    → (id : ℕ) (ch : Channel) → ChannelOk side p id ch
    → ChannelOk side q id ch
ChannelOk-purpose side p q f id ch ok = record {
  fits = ok.fits;
  is_control = ok.is_control;
  parity = ok.parity;
  opened = ok.opened;
  for_contact = λ h. f (ok.for_contact h);
}

module _ {Proven : Text → Type 0} where
  -- A connection that has become a known contact's stays one.
  pub set_purpose-IsSound :
      (p : Purpose) (c : Conn) → IsSound Proven c → IsSound Proven (set_purpose p c).0
  unfolding set_purpose
  set_purpose-IsSound p c s =
      let c' = emit (purpose_changed p c.purpose) (record c { purpose = p }) in
      let P = λ (r : Conn × Bool). IsSound Proven r.0 in
      if_cases P (is_purpose c.purpose p) (c, true)
        (if purpose_allowed p c then (c', true) else (c, false)) (λ _. s)
        λ e.
          if_cases P (purpose_allowed p c) (c', true) (c, false)
            (λ h.
              let (keeps, contact, out, inc) = purpose_allowed-facts p c e h in
              record {
                entries =
                    Entries-mono (ChannelOk c.side c.purpose) (ChannelOk c.side p) c.channels
                      (ChannelOk-purpose c.side c.purpose p keeps) s.entries;
                contact_known = contact;
                proven = s.proven;
                requester = out;
                requested = inc;
              })
            (λ _. s)
