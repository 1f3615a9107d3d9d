-- ===== src/Connection/Ids.antt =====
-- Channel identifiers: `ConnectionPrivate::availableOutboundChannelId` and
-- `isValidAvailableChannelId` (src/libtego/source/protocol/Connection.cpp).
pub mod Agreement
pub mod Stuck
use ricochet_irc.Prelude.{
  ℕ, zero, suc, ◌+◌, ◌%◌, ◌≤◌, ◌<◌, ◌≡◌, refl, Bool, true, false, not, ◌&&◌, ◌||◌, Option, none,
  some, Dict, contains, if◌then◌else◌, ltb, ◌==◌, arith, ℤ, pos, negsuc,
}
use ricochet_irc.Wire.Frame.{uint16_max}
use ricochet_irc.Wire.Reader.{Side, client_side, server_side}
use ricochet_irc.Connection.State.{Conn, Channel, is_client}
use ricochet_irc.Connection.Channels.{abort}

abbrev pub min_id : Side → ℕ
min_id client_side = 1
min_id server_side = 2

abbrev pub max_id : Side → ℕ
max_id client_side = uint16_max
max_id server_side = 65534

-- `evenNumbered`: the server opens even-numbered channels, the client odd-numbered ones.
abbrev pub even_numbered : Side → Bool
even_numbered side = not (is_client side)

abbrev pub is_odd : ℕ → Bool
is_odd n = n % 2 == 1

-- One round of the search loop; `random` is `QRandomGenerator::bounded(200)`.
next_candidate : Side → ℕ → ℕ → ℕ
next_candidate side random id =
    let stepped = id + (1 + random) in
    let kept_even = if even_numbered side then stepped + stepped % 2 else stepped in
    if ltb (max_id side) kept_even then min_id side else kept_even

-- The `for` loop: at most `rounds` rounds, while the identifier is taken.
unfoldable pub search_id : ℕ → Side → (ℕ → ℕ) → Dict Channel → ℕ → ℕ
unfolding next_candidate
search_id zero side random channels id = id
search_id (suc rounds) side random channels id = elim (contains id channels) [
  | true ↦ search_id rounds side random channels (next_candidate side (random rounds) id)
  | false ↦ id
]

-- The checks behind the loop, on the identifier that it ended with.
unfoldable pub check_id : ℕ → Conn → Conn × Option ℕ
check_id id c =
    let c' = record c { next_outbound_channel_id = id } in
    if contains id c.channels
    then (abort c', none)
    else if ltb id (min_id c.side) || ltb (max_id c.side) id
    then (c', none)
    else if (if even_numbered c.side then is_odd id else not (is_odd id))
    then (c', none)
    else (record c' { next_outbound_channel_id = id + 2 }, some id)

-- The first candidate: a next identifier out of range starts over.
unfoldable pub start_id : Side → ℕ → ℕ
start_id side next = if ltb next (min_id side) || ltb (max_id side) next then min_id side else next

-- `none` is the result -1.
unfoldable pub available_outbound_channel_id : (ℕ → ℕ) → Conn → Conn × Option ℕ
available_outbound_channel_id random c =
    check_id (search_id 100 c.side random c.channels (start_id c.side c.next_outbound_channel_id)) c

-- May the peer on `side` open a channel with this identifier?
unfoldable pub is_valid_available_channel_id : ℤ → Side → Dict Channel → Bool
is_valid_available_channel_id (negsuc n) side channels = false
is_valid_available_channel_id (pos id) side channels =
    if ltb id 1 || ltb uint16_max id
    then false
    else if (if is_odd id then not (is_client side) else is_client side)
    then false
    else not (contains id channels)
