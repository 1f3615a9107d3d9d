-- ===== src/Connection/Soundness/Openings.antt =====
-- Opening a channel, from either side, keeps a connection sound.
use Prim.Native.String.{String}
use ricochet_irc.Prelude.{
  ℕ, ◌%◌, ◌≤◌, ◌<◌, ◌≡◌, refl, Bool, true, false, not, ◌&&◌, Option, none, some, Dict, put,
  contains, is_some, arith, if_both, if_cases, ℤ, pos, negsuc,
}
use ricochet_irc.Wire.Frame.{uint16_max}
use ricochet_irc.Wire.Reader.{Side, client_side, server_side}
use ricochet_irc.Connection.State.{
  Conn, Channel, Kind, Text, inbound, control, auth_hidden_service, chat, contact_request,
  file_transfer, known_contact, emit, new_channel, same_kind, channel_created, channel_opened,
}
use ricochet_irc.Connection.Channels.{insert_channel, close_channel}
use ricochet_irc.Connection.Ids.{is_valid_available_channel_id}
use ricochet_irc.Connection.Requests.{
  Env, OpenChannel, ChannelResult, Decision, create, allow_inbound, allow_for_contact, allow_auth,
  allow_contact_request, receive_request,
}
use ricochet_irc.Connection.Control.{
  reply_result, admit_channel, finish_inbound, open_inbound, handle_valid, handle_open_channel,
  peer_of, refused_result,
}
use ricochet_irc.Connection.Soundness.{ChannelOk, IsSound, parity_of, is_for_contact}
use ricochet_irc.Connection.Soundness.Parts.{send_message-IsSound, close_channel-IsSound, Sound-put}

-- What the rest of the opening relies on of `allowInboundChannelRequest`.
record Admits (kind : Kind) (c : Conn) (d : Decision) : Type 0 where
  same_side : d.conn.side ≡ c.side
  kind_kept : d.channel.kind ≡ kind
  is_from_peer : d.channel.direction ≡ inbound
  contact : d.allowed ≡ true → is_for_contact d.channel ≡ true → d.conn.purpose ≡ known_contact

allow_inbound-Admits :
    (env : Env) (m : OpenChannel) (kind : Kind) (r : ChannelResult) (c : Conn)
    → Admits kind c (allow_inbound env m kind (new_channel kind inbound) r c)
unfolding allow_inbound allow_for_contact allow_auth allow_contact_request receive_request
allow_inbound-Admits env m control r c = ground arith
allow_inbound-Admits env m auth_hidden_service r c = ground arith
allow_inbound-Admits env m chat r c = ground arith
allow_inbound-Admits env m contact_request r c = ground arith
allow_inbound-Admits env m file_transfer r c = ground arith

module _ {Proven : Text → Type 0} where
  allow_inbound-IsSound :
      (env : Env) (m : OpenChannel) (kind : Kind) (r : ChannelResult) (c : Conn)
      → IsSound Proven c
      → IsSound Proven (allow_inbound env m kind (new_channel kind inbound) r c).conn
  unfolding allow_inbound allow_for_contact allow_auth allow_contact_request receive_request
  allow_inbound-IsSound env m control r c s = ground arith
  allow_inbound-IsSound env m auth_hidden_service r c s = ground arith
  allow_inbound-IsSound env m chat r c s = ground arith
  allow_inbound-IsSound env m contact_request r c s = ground arith
  allow_inbound-IsSound env m file_transfer r c s = ground arith

create-not_control :
    (type : String) (kind : Kind) → create type ≡ some kind → same_kind control kind ≡ false
unfolding create
create-not_control type kind e = ground arith

-- An identifier that passes `isValidAvailableChannelId` as one of the peer's.
record IsPeers (side : Side) (id : ℕ) : Type 0 where
  fits : id ≤ uint16_max
  positive : 0 < id
  parity : id % 2 ≡ parity_of side inbound

valid-IsPeers :
    (id : ℕ) (side : Side) (channels : Dict Channel)
    → is_valid_available_channel_id (pos id) (peer_of side) channels ≡ true
    → IsPeers side id
unfolding is_valid_available_channel_id
valid-IsPeers id client_side channels h = ground arith
valid-IsPeers id server_side channels h = ground arith

module _ {Proven : Text → Type 0} where
  reply_result-IsSound :
      (env : Env) (r : ChannelResult) (c : Conn)
      → IsSound Proven c
      → IsSound Proven (reply_result env r c)
  unfolding reply_result
  reply_result-IsSound env r c s = send_message-IsSound 0 _ c s

  pub insert_channel-IsSound :
      (id : ℕ) (ch : Channel) (c : Conn)
      → IsSound Proven c
      → ChannelOk c.side c.purpose id ch
      → IsSound Proven (insert_channel id ch c).0
  unfolding insert_channel
  insert_channel-IsSound id ch c s ok =
      if_both (λ (r : Conn × Bool). IsSound Proven r.0) (contains id c.channels) (c, false)
        (record c { channels = put id ch c.channels }, true) s (Sound-put id ch c s ok)

  finish_inbound-IsSound :
      (env : Env) (id : ℕ) (kind : Kind) (c : Conn) (d : Decision)
      → IsSound Proven d.conn
      → Admits kind c d
      → IsPeers c.side id
      → same_kind control kind ≡ false
      → IsSound Proven (finish_inbound env id d)
  unfolding finish_inbound admit_channel
  finish_inbound-IsSound env id kind c d s a p k =
      let ch = record (d.channel) { is_opened = true } in
      let c' = emit (channel_opened id) d.conn in
      if_cases (IsSound Proven) (d.allowed && not (is_some d.result.common_error))
        (admit_channel env id ch d.result d.conn)
        (reply_result env (record (d.result) { opened = false }) d.conn)
        (λ h.
          reply_result-IsSound env (record (d.result) { opened = true }) (insert_channel id ch c').0
            (insert_channel-IsSound id ch c' s (record {
              fits = p.fits;
              is_control = ground arith;
              parity = λ _. ground arith;
              opened = λ _. refl;
              for_contact = λ f. a.contact (ground arith) f;
            })))
        (λ _. reply_result-IsSound env (record (d.result) { opened = false }) d.conn s)

  open_inbound-IsSound :
      (env : Env) (m : OpenChannel) (id : ℕ) (kind : Option Kind) (c : Conn)
      → IsSound Proven c
      → IsPeers c.side id
      → ((k : Kind) → kind ≡ some k → same_kind control k ≡ false)
      → IsSound Proven (open_inbound env m id kind c)
  unfolding open_inbound
  open_inbound-IsSound env m id none c s p k = reply_result-IsSound env _ c s
  open_inbound-IsSound env m id (some kind) c s p k =
      let c' = emit (channel_created kind inbound) c in
      finish_inbound-IsSound env id kind c' _
        (allow_inbound-IsSound env m kind (refused_result (pos id) none) c' s)
        (allow_inbound-Admits env m kind (refused_result (pos id) none) c') p (k kind refl)

  handle_valid-IsSound :
      (env : Env) (m : OpenChannel) (id : ℤ) (c : Conn)
      → IsSound Proven c
      → is_valid_available_channel_id id (peer_of c.side) c.channels ≡ true
      → IsSound Proven (handle_valid env m id c)
  unfolding handle_valid
  handle_valid-IsSound env m (pos id) c s v =
      open_inbound-IsSound env m id (create m.channel_type) c s
        (valid-IsPeers id c.side c.channels v) (create-not_control m.channel_type)
  handle_valid-IsSound env m (negsuc n) c s v = s

  -- Whatever the peer asks to open, the table stays sound.
  pub handle_open_channel-IsSound :
      (env : Env) (m : OpenChannel) (c : Conn)
      → IsSound Proven c
      → IsSound Proven (handle_open_channel env m c)
  unfolding handle_open_channel
  handle_open_channel-IsSound env m c s =
      if_cases (IsSound Proven)
        (is_valid_available_channel_id m.channel_identifier (peer_of c.side) c.channels)
        (handle_valid env m m.channel_identifier c) (close_channel 0 c)
        (handle_valid-IsSound env m m.channel_identifier c s) (λ _. close_channel-IsSound 0 c s)
