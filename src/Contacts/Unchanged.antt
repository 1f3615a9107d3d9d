-- ===== src/Contacts/Unchanged.antt =====
-- Closing a connection, or one of its channels, leaves its authentication and its purpose
-- (src/libtego/source/protocol/Connection.cpp, Channel.cpp).
use ricochet_irc.Prelude.{
  ℕ, ◌≡◌, refl, ◌∙◌, Bool, not, ◌||◌, List, find, [], if◌then◌else◌, ltb, length, if_both,
  option_both,
}
use ricochet_irc.Wire.Frame.{uint16_max, packet_max_data_size}
use ricochet_irc.Connection.State.{
  Conn, Channel, Kind, is_connected, control, auth_hidden_service, emit, auth_successful,
  auth_failed, Kind, contact_request, chat, file_transfer, channel_invalidated,
}
use ricochet_irc.Connection.Channels.{
  close, close_channel, close_channel_object, invalidate, on_invalidated, write_packet,
}

-- The authentication and the purpose of a connection stay.
pub record Same (c c' : Conn) : Type 0 where
  pub service : c'.hidden_service ≡ c.hidden_service
  pub purpose : c'.purpose ≡ c.purpose

pub close-Same : (c : Conn) → Same c (close c)
unfolding close
close-Same c =
    if_both (Same c) (is_connected c) _ _ (record { service = refl; purpose = refl })
      (record { service = refl; purpose = refl })

pub Same-trans : (a b c : Conn) → Same a b → Same b c → Same a c
Same-trans a b c p q = record { service = q.service ∙ p.service; purpose = q.purpose ∙ p.purpose }

pub Same-refl : (c : Conn) → Same c c
Same-refl c = record { service = refl; purpose = refl }

write_packet-Same : (id : ℕ) (p : List ℕ) (c : Conn) → Same c (write_packet id p c).0
unfolding write_packet
write_packet-Same id p c =
    if_both (λ (r : Conn × Bool). Same c r.0)
      (ltb uint16_max id || ltb packet_max_data_size (length p)) _ _ (Same-refl c)
      (if_both (λ (r : Conn × Bool). Same c r.0) (not (is_connected c)) _ _ (Same-refl c)
        (record { service = refl; purpose = refl }))

on_invalidated-Same : (ch : Channel) (c : Conn) → Same c (on_invalidated ch c)
unfolding on_invalidated
on_invalidated-Same ch c = by_kind ch.kind
  where
    by_kind :
        (k : Kind)
        → Same c (elim k as (λ _. Conn) [
          | control ↦ close c
          | auth_hidden_service ↦ emit (if ch.is_accepted then auth_successful else auth_failed) c
          | _ ↦ c
        ])
    by_kind control = close-Same c
    by_kind auth_hidden_service = record { service = refl; purpose = refl }
    by_kind chat = Same-refl c
    by_kind contact_request = Same-refl c
    by_kind file_transfer = Same-refl c

invalidate-Same : (id : ℕ) (ch : Channel) (c : Conn) → Same c (invalidate id ch c)
unfolding invalidate
invalidate-Same id ch c =
    let s = on_invalidated-Same ch (emit (channel_invalidated id) c) in
    record { service = s.service; purpose = s.purpose }

close_channel_object-Same :
    (id : ℕ) (ch : Channel) (c : Conn) → Same c (close_channel_object id ch c)
unfolding close_channel_object
close_channel_object-Same id ch c =
    if_both (Same c) (is_connected c) _ _
      (Same-trans c (write_packet id [] c).0 _ (write_packet-Same id [] c)
        (invalidate-Same id ch _))
      (invalidate-Same id ch c)

pub close_channel-Same : (id : ℕ) (c : Conn) → Same c (close_channel id c)
unfolding close_channel
close_channel-Same id c =
    option_both (Same c) (find id c.channels) c (λ ch. close_channel_object id ch c) (Same-refl c)
      (λ ch _. close_channel_object-Same id ch c)
