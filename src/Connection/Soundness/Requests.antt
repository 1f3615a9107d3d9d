-- ===== src/Connection/Soundness/Requests.antt =====
-- Asking the peer to open a channel keeps a connection sound.
use ricochet_irc.Prelude.{
  ℕ, ◌+◌, ◌%◌, ◌≤◌, ◌<◌, ◌≡◌, refl, Bool, true, false, not, ◌||◌, Option, none, some, [], contains,
  arith, if_both, option_both, if◌then◌else◌, ltb, pos,
}
use ricochet_irc.Wire.Frame.{uint16_max}
use ricochet_irc.Wire.Reader.{Side}
use ricochet_irc.Connection.State.{
  Conn, Channel, Kind, Text, Direction, control, auth_hidden_service, chat, contact_request,
  file_transfer, outbound, known_contact, emit, same_kind, channel_created, new_channel,
}
use ricochet_irc.Connection.Channels.{abort, send_message, insert_channel, invalidate, find_channel}
use ricochet_irc.Connection.Events.{opened}
use ricochet_irc.Connection.Ids.{
  check_id, even_numbered, min_id, max_id, is_odd, available_outbound_channel_id, start_id,
  search_id,
}
use ricochet_irc.Connection.Requests.{Env, OpenChannel, allow_outbound}
use ricochet_irc.Connection.Control.{
  open_failed, keep_if_sent, send_request, send_open_channel, open_channel, empty_packet, type_name,
}
use ricochet_irc.Connection.Soundness.{ChannelOk, IsSound, parity_of, is_for_contact}
use ricochet_irc.Connection.Soundness.Parts.{
  abort-IsSound, send_message-IsSound, invalidate-IsSound, on_invalidated-IsSound,
}
use ricochet_irc.Connection.Soundness.Openings.{insert_channel-IsSound}

abbrev First : (Text → Type 0) → Conn × Bool → Type 0
First Proven r = IsSound Proven r.0

abbrev Lead : (Text → Type 0) → Conn × Option ℕ → Type 0
Lead Proven r = IsSound Proven r.0

-- An identifier that this side may use for a channel of its own.
record IsOurs (side : Side) (id : ℕ) : Type 0 where
  fits : id ≤ uint16_max
  positive : 0 < id
  parity : id % 2 ≡ parity_of side outbound

check_id-IsOurs :
    (start : ℕ) (c : Conn) (id : ℕ)
    → (check_id start c).1 ≡ some id
    → IsOurs (check_id start c).0.side id
unfolding check_id
check_id-IsOurs start c id e = ground arith

module _ {Proven : Text → Type 0} where
  check_id-IsSound : (start : ℕ) (c : Conn) → IsSound Proven c → IsSound Proven (check_id start c).0
  unfolding check_id
  check_id-IsSound id c s =
      let c' = record c { next_outbound_channel_id = id } in
      let parity_test = if even_numbered c.side then is_odd id else not (is_odd id) in
      let found : Conn × Option ℕ = (record c' { next_outbound_channel_id = id + 2 }, some id) in
      let failed : Conn × Option ℕ = (c', none) in
      if_both (Lead Proven) (contains id c.channels) (abort c', none)
        (if ltb id (min_id c.side) || ltb (max_id c.side) id
          then failed
          else if parity_test
          then failed
          else found)
        (abort-IsSound c' s)
        (if_both (Lead Proven) (ltb id (min_id c.side) || ltb (max_id c.side) id) failed
          (if parity_test then failed else found) s
          (if_both (Lead Proven) parity_test failed found s s))

-- What the rest relies on of `allowOutboundChannelRequest`.
allow_outbound-facts :
    (env : Env) (kind : Kind) (ch : Channel) (m : OpenChannel) (c : Conn) (ch' : Channel)
    (m' : OpenChannel)
    → allow_outbound env kind ch m c ≡ some (ch', m')
    → ch.kind ≡ kind
    → (ch'.direction ≡ ch.direction)
      × (same_kind control ch'.kind ≡ false)
      × (is_for_contact ch' ≡ true → c.purpose ≡ known_contact)
unfolding allow_outbound
allow_outbound-facts env control ch m c ch' m' e k = ground arith
allow_outbound-facts env auth_hidden_service ch m c ch' m' e k = ground arith
allow_outbound-facts env chat ch m c ch' m' e k = ground arith
allow_outbound-facts env contact_request ch m c ch' m' e k = ground arith
allow_outbound-facts env file_transfer ch m c ch' m' e k = ground arith

module _ {Proven : Text → Type 0} where
  keep_if_sent-IsSound :
      (id : ℕ) (ch : Channel) (r : Conn × Bool)
      → First Proven r
      → First Proven (keep_if_sent id ch r)
  unfolding keep_if_sent
  keep_if_sent-IsSound id ch (c, sent) s =
      if_both (First Proven) sent (c, true) (invalidate id ch c, false) s
        (invalidate-IsSound id ch c s)

ours-ChannelOk :
    (c : Conn) (id : ℕ) {d : Direction} (ch : Channel)
    → IsOurs c.side id
    → (ch.direction ≡ d)
      × (same_kind control ch.kind ≡ false)
      × (is_for_contact ch ≡ true → c.purpose ≡ known_contact)
    → d ≡ outbound
    → ChannelOk c.side c.purpose id ch
ours-ChannelOk c id ch own f d = record {
  fits = own.fits;
  is_control = ground arith;
  parity = λ _. ground arith;
  opened = λ h. ground arith;
  for_contact = f.2;
}

module _ {Proven : Text → Type 0} where
  send_request-IsSound :
      (env : Env) (id : ℕ) (ch : Channel) (m : OpenChannel) (c : Conn)
      → IsSound Proven c
      → ChannelOk c.side c.purpose id ch
      → IsSound Proven (send_request env id ch m c).0
  unfolding send_request open_failed
  send_request-IsSound env id ch m c s ok =
      let r = insert_channel id ch c in
      let packet = env.serialize (record empty_packet { open_channel = some m }) in
      let inserted = insert_channel-IsSound id ch c s ok in
      if_both (First Proven) (not r.1) (open_failed ch c)
        (keep_if_sent id ch (send_message 0 packet r.0)) (on_invalidated-IsSound ch c s)
        (keep_if_sent-IsSound id ch (send_message 0 packet r.0)
          (send_message-IsSound 0 packet r.0 inserted))

  send_open_channel-IsSound :
      (env : Env) (ch : Channel) (c : Conn) (id : Option ℕ)
      → IsSound Proven c
      → ((n : ℕ) → id ≡ some n → IsOurs c.side n)
      → ch.direction ≡ outbound
      → IsSound Proven (send_open_channel env ch (c, id)).0
  unfolding send_open_channel open_failed
  send_open_channel-IsSound env ch c none s own d = on_invalidated-IsSound ch c s
  send_open_channel-IsSound env ch c (some id) s own d =
      let m : OpenChannel = record {
        channel_identifier = pos id;
        channel_type = type_name ch.kind;
        client_cookie = [];
        request = none;
      } in
      let c' = emit (channel_created ch.kind outbound) c in
      let sent : Channel × OpenChannel → Conn × Bool = λ p. send_request env id p.0 p.1 c' in
      option_both (First Proven) (allow_outbound env ch.kind ch m c') (open_failed ch c') sent
        (on_invalidated-IsSound ch c' s)
        λ (ch', m') e. send_request-IsSound env id ch' m' c' s (
          ours-ChannelOk c' id ch' (own id refl)
            (allow_outbound-facts env ch.kind ch m c' ch' m' e refl) d)

  -- Opening a channel, whatever the outcome.
  pub open_channel-IsSound :
      (env : Env) (kind : Kind) (nickname message : Text) (c : Conn)
      → IsSound Proven c
      → IsSound Proven (opened c (open_channel env kind nickname message c))
  unfolding open_channel available_outbound_channel_id
  open_channel-IsSound env kind nickname message c s =
      let ch = record (new_channel kind outbound) { nickname = nickname; message = message } in
      let start =
        search_id 100 c.side env.bounded c.channels (start_id c.side c.next_outbound_channel_id) in
      let r = check_id start c in
      if_both (λ o. IsSound Proven (opened c o)) (find_channel control none c.channels)
        (some (send_open_channel env ch r)) none
        (send_open_channel-IsSound env ch r.0 r.1 (check_id-IsSound start c s)
          (λ n e. check_id-IsOurs start c n e) refl)
        s
