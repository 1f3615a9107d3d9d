-- ===== src/Connection/Ids/Agreement.antt =====
-- An identifier that `availableOutboundChannelId` picks against the check
-- `isValidAvailableChannelId` of the peer (src/libtego/source/protocol/Connection.cpp).
use ricochet_irc.Prelude.{
  ℕ, ◌%◌, ◌≤◌, ◌<◌, ◌≡◌, false, not, some, Dict, contains, if◌then◌else◌, arith, pos,
}
use ricochet_irc.Wire.Frame.{uint16_max}
use ricochet_irc.Wire.Reader.{Side, client_side, server_side}
use ricochet_irc.Connection.State.{Conn, Channel, is_client}
use ricochet_irc.Connection.Ids.{
  check_id, available_outbound_channel_id, is_valid_available_channel_id,
}

-- The numbers that a side may open channels with.
pub record IsOwn (side : Side) (id : ℕ) : Type 0 where
  pub positive : 0 < id
  pub fits : id ≤ uint16_max
  pub parity : id % 2 ≡ (if is_client side then 1 else 0)

check_id-some :
    (start : ℕ) (c c' : Conn) (id : ℕ)
    → check_id start c ≡ (c', some id)
    → (contains id c.channels ≡ false)
      × (c'.channels ≡ c.channels)
      × (0 < id)
      × (id ≤ uint16_max)
      × (id % 2 ≡ (if is_client c.side then 1 else 0))
unfolding check_id
check_id-some start c c' id e = ground arith

pub valid_iff :
    (id : ℕ) (side : Side) (channels : Dict Channel)
    → IsOwn side id
    → is_valid_available_channel_id (pos id) side channels ≡ not (contains id channels)
unfolding is_valid_available_channel_id
valid_iff id client_side channels own = ground arith
valid_iff id server_side channels own = ground arith

-- An identifier that a side picks for a channel is free in its own table and one of its own
-- numbers, so the peer's check passes it exactly when the peer's table does not hold it either.
pub available-valid :
    (random : ℕ → ℕ) (c c' : Conn) (id : ℕ) (peer : Dict Channel)
    → available_outbound_channel_id random c ≡ (c', some id)
    → (contains id c.channels ≡ false)
      × IsOwn c.side id
      × (c'.channels ≡ c.channels)
      × (is_valid_available_channel_id (pos id) c.side peer ≡ not (contains id peer))
unfolding available_outbound_channel_id
available-valid random c c' id peer e =
    let (free, same, positive, fits, parity) = check_id-some _ c c' id e in
    let own : IsOwn c.side id = record { positive = positive; fits = fits; parity = parity } in
    (free, own, same, valid_iff id c.side peer own)

-- A number of one side is refused as the other's, whatever the table holds.
pub other_side_refused :
    (id : ℕ) (channels : Dict Channel)
    → (IsOwn client_side id → is_valid_available_channel_id (pos id) server_side channels ≡ false)
      × (IsOwn server_side id → is_valid_available_channel_id (pos id) client_side channels ≡ false)
unfolding is_valid_available_channel_id
other_side_refused id channels = (λ own. ground arith, λ own. ground arith)
