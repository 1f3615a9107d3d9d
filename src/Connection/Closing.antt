-- ===== src/Connection/Closing.antt =====
-- What is left of a connection whose socket is gone: `socketDisconnected`, `closeAllChannels` and
-- `abort` (src/libtego/source/protocol/Connection.cpp).
use ricochet_irc.Prelude.{
  ℕ, ◌≡◌, refl, ap, ◌∙◌, true, [], ◌∷◌, Dict, Entries, Entries-mono, contains, remove, arith,
  ==_refl, if_cases,
}
use ricochet_irc.Connection.State.{Conn, Channel, SocketState, closed, emit, connection_closed}
use ricochet_irc.Connection.Channels.{
  write_packet, close, on_invalidated, invalidate, close_channel_object, close_each,
  close_all_channels, socket_disconnected, abort,
}

-- Closing a channel takes its entries off the table.
channels-close_channel_object :
    (id : ℕ) (ch : Channel) (c : Conn)
    → (close_channel_object id ch c).channels ≡ remove id c.channels
unfolding close_channel_object invalidate on_invalidated write_packet close
channels-close_channel_object id ch c = ground arith

abbrev remove_each : Dict Channel → Dict Channel → Dict Channel
remove_each [] m = m
remove_each ((id, ch) ∷ rest) m = remove_each rest (remove id m)

channels-close_each :
    (m : Dict Channel) (c : Conn) → (close_each m c).channels ≡ remove_each m c.channels
unfolding close_each
channels-close_each [] c = refl
channels-close_each ((id, ch) ∷ m) c =
    channels-close_each m (close_channel_object id ch c)
    ∙ ap (remove_each m) (channels-close_channel_object id ch c)

-- Every key of `l` is a key of `m`.
abbrev Covers : Dict Channel → Dict Channel → Type 0
Covers m l = Entries (λ k v. contains k m ≡ true) l

Covers-cons : (id : ℕ) (ch : Channel) (m l : Dict Channel) → Covers m l → Covers ((id, ch) ∷ m) l
Covers-cons id ch m l h =
    Entries-mono (λ k v. contains k m ≡ true) (λ k v. contains k ((id, ch) ∷ m) ≡ true) l
      (λ k v e. ground arith) h

Covers-refl : (m : Dict Channel) → Covers m m
Covers-refl [] = tt
Covers-refl ((id, ch) ∷ m) = (ground (arith, ==_refl id), Covers-cons id ch m m (Covers-refl m))

Covers-remove :
    (id : ℕ) (ch : Channel) (m l : Dict Channel) → Covers ((id, ch) ∷ m) l → Covers m (remove id l)
Covers-remove id ch m [] h = tt
Covers-remove id ch m ((k, v) ∷ l) h = ground (arith, Covers-remove id ch m l h.1)

remove_each-covered : (m l : Dict Channel) → Covers m l → remove_each m l ≡ []
remove_each-covered [] [] h = refl
remove_each-covered [] ((k, v) ∷ l) h = absurd (cc)
remove_each-covered ((id, ch) ∷ m) l h =
    remove_each-covered m (remove id l) (Covers-remove id ch m l h)

socket-close_channel_object :
    (id : ℕ) (ch : Channel) (c : Conn)
    → c.socket ≡ closed
    → ((close_channel_object id ch c).socket ≡ closed)
      × ((close_channel_object id ch c).written ≡ c.written)
      × ((close_channel_object id ch c).was_closed ≡ c.was_closed)
unfolding close_channel_object invalidate on_invalidated write_packet close
socket-close_channel_object id ch c e = (ground arith, ground arith, ground arith)

socket-close_each :
    (m : Dict Channel) (c : Conn)
    → c.socket ≡ closed
    → ((close_each m c).socket ≡ closed)
      × ((close_each m c).written ≡ c.written)
      × ((close_each m c).was_closed ≡ c.was_closed)
unfolding close_each
socket-close_each [] c e = (e, refl, refl)
socket-close_each ((id, ch) ∷ m) c e =
    let (gone, same, flag) = socket-close_channel_object id ch c e in
    let rest = socket-close_each m (close_channel_object id ch c) gone in
    (rest.0, rest.1 ∙ same, rest.2 ∙ flag)

-- `closeAllChannels` on a connection whose socket is closed.
closed_all :
    (c : Conn)
    → c.socket ≡ closed
    → ((close_all_channels c).channels ≡ [])
      × ((close_all_channels c).socket ≡ closed)
      × ((close_all_channels c).was_closed ≡ c.was_closed)
      × ((close_all_channels c).written ≡ c.written)
unfolding close_all_channels
closed_all c e =
    let (gone, same, flag) = socket-close_each c.channels c e in
    (
      channels-close_each c.channels c
          ∙ remove_each-covered c.channels c.channels (Covers-refl c.channels),
      gone,
      flag,
      same,
    )

-- When the socket is gone, no channel is left in the table, whatever was open, the connection is
-- marked as closed, and nothing more is written.
pub disconnected_empty :
    (c : Conn)
    → ((socket_disconnected c).channels ≡ [])
      × ((socket_disconnected c).socket ≡ closed)
      × ((socket_disconnected c).was_closed ≡ true)
      × ((socket_disconnected c).written ≡ c.written)
unfolding socket_disconnected
disconnected_empty c =
    let c' = record c { socket = closed } in
    let c'' = emit connection_closed (record c' { was_closed = true }) in
    if_cases
      (λ (d : Conn).
        ((close_all_channels d).channels ≡ [])
        × ((close_all_channels d).socket ≡ closed)
        × ((close_all_channels d).was_closed ≡ true)
        × ((close_all_channels d).written ≡ c.written))
      c.was_closed c' c'' (λ w. let (a, b, f, d) = closed_all c' refl in (a, b, f ∙ w, d))
      (λ _. closed_all c'' refl)

pub socket-abort : (c : Conn) → (abort c).socket ≡ closed
unfolding abort
socket-abort c = by_socket c.socket refl
  where
    by_socket :
        (k : SocketState)
        → c.socket ≡ k
        → (elim k as (λ _. Conn) [ closed ↦ c | _ ↦ socket_disconnected c ]).socket ≡ closed
    by_socket closed e = e
    by_socket _ e = (disconnected_empty c).1
