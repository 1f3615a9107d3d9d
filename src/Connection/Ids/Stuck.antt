-- ===== src/Connection/Ids/Stuck.antt =====
-- The random step of `availableOutboundChannelId` on the client side
-- (src/libtego/source/protocol/Connection.cpp): only the even numbers of the server are rounded.
use ricochet_irc.Prelude.{
  ℕ, suc, ◌+◌, ◌%◌, ◌≤◌, ◌<◌, ◌≡◌, refl, ap, ◌∙◌, true, false, none, Dict, contains, arith,
}
use ricochet_irc.Wire.Frame.{uint16_max}
use ricochet_irc.Wire.Reader.{Side, client_side}
use ricochet_irc.Connection.State.{Conn, Channel}
use ricochet_irc.Connection.Ids.{
  check_id, search_id, next_candidate, start_id, available_outbound_channel_id,
}

module _ (rounds : ℕ) (side : Side) (random : ℕ → ℕ) (channels : Dict Channel) (id : ℕ) where
  search_id-free :
      contains id channels ≡ false → search_id (suc rounds) side random channels id ≡ id
  unfolding search_id
  search_id-free free = rw (free, search_id)

  search_id-taken :
      contains id channels ≡ true
      → search_id (suc rounds) side random channels id
        ≡ search_id rounds side random channels (next_candidate side (random rounds) id)
  unfolding search_id
  search_id-taken taken = rw (taken, search_id)

next_candidate-client :
    (step id : ℕ)
    → id + (1 + step) ≤ uint16_max
    → next_candidate client_side step id ≡ id + (1 + step)
unfolding next_candidate
next_candidate-client step id fits = ground arith

-- The last check behind the loop refuses an even number on the client side.
check_id-even :
    (id : ℕ) (c : Conn)
    → c.side ≡ client_side
    → id % 2 ≡ 0
    → 0 < id
    → id ≤ uint16_max
    → contains id c.channels ≡ false
    → check_id id c ≡ (record c { next_outbound_channel_id = id }, none)
unfolding check_id
check_id-even id c side even positive fits free = ground arith

start_id-in_range : (n : ℕ) → 0 < n → n ≤ uint16_max → start_id client_side n ≡ n
unfolding start_id
start_id-in_range n positive fits = ground arith

module _ (random : ℕ → ℕ) (c : Conn) (n : ℕ) (next : c.next_outbound_channel_id ≡ n) where
  module _ (side : c.side ≡ client_side) (positive : 0 < n) (fits : n ≤ uint16_max) where
    -- The loop starts at a next identifier that is in range.
    starts_at :
        available_outbound_channel_id random c
        ≡ check_id (search_id 100 client_side random c.channels n) c
    unfolding available_outbound_channel_id
    starts_at = simp (side, next, start_id-in_range n positive fits)

-- With an even number as the next one, a client gets no identifier and keeps that number.
even_stays :
    (random : ℕ → ℕ) (c : Conn) (n : ℕ)
    → c.next_outbound_channel_id ≡ n
    → c.side ≡ client_side
    → n % 2 ≡ 0
    → 0 < n
    → n ≤ uint16_max
    → contains n c.channels ≡ false
    → available_outbound_channel_id random c ≡ (record c { next_outbound_channel_id = n }, none)
even_stays random c n next side even positive fits free =
    starts_at random c n next side positive fits
    ∙ ap (λ id. check_id id c) (search_id-free 99 client_side random c.channels n free)
    ∙ check_id-even n c side even positive fits free

-- A client whose next identifier is taken, and whose random step leads to a free even number in
-- range, gets no identifier, in this call and in every later one with the same table.
pub client_stuck :
    (random later : ℕ → ℕ) (c : Conn) (n : ℕ)
    → c.side ≡ client_side
    → c.next_outbound_channel_id ≡ n
    → n % 2 ≡ 1
    → contains n c.channels ≡ true
    → random 99 % 2 ≡ 0
    → n + (1 + random 99) ≤ uint16_max
    → contains (n + (1 + random 99)) c.channels ≡ false
    → let c' = record c { next_outbound_channel_id = n + (1 + random 99) } in
      (available_outbound_channel_id random c ≡ (c', none))
      × (available_outbound_channel_id later c' ≡ (c', none))
client_stuck random later c n side next odd taken even fits free =
    let m = n + (1 + random 99) in
    let m_even : m % 2 ≡ 0 = omega arith in
    (
      starts_at random c n next side (omega arith) (omega arith)
          ∙ ap (λ id. check_id id c)
              (search_id-taken 99 client_side random c.channels n taken
                ∙ ap (search_id 99 client_side random c.channels)
                    (next_candidate-client (random 99) n fits)
                ∙ search_id-free 98 client_side random c.channels m free)
          ∙ check_id-even m c side m_even (omega arith) fits free,
      even_stays later (record c { next_outbound_channel_id = m }) m refl side m_even (omega arith)
          fits free,
    )
