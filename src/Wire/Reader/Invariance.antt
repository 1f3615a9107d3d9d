-- ===== src/Wire/Reader/Invariance.antt =====
-- A property that every handler keeps holds behind `socketReadable`, whatever bytes arrive
-- (src/libtego/source/protocol/Connection.cpp).
use ricochet_irc.Prelude.{ℕ, zero, suc, [], ◌++◌, if_both, length}
use ricochet_irc.Wire.Frame.{Bytes, Next, incomplete, corrupted, packet, next_packet}
use ricochet_irc.Wire.Handshake.{Outcome, waiting, refused, old_version, failed, ready}
use ricochet_irc.Wire.Reader.{
  Session, Reader, Side, client_side, server_side, left_in, read_packets, read_all, handshake,
  respond, give_up, read_on, after_handshake, socket_readable, receive,
}

-- Every handler of the session keeps the property.
pub record Keeps {ℓ} {S : Type 0} (ops : Session S) (P : S → Type ℓ) : Type ℓ where
  pub on_packet : (id : ℕ) (payload : Bytes) (s : S) → P s → P (ops.on_packet id payload s)
  pub abort : (s : S) → P s → P (ops.abort s)
  pub close : (s : S) → P s → P (ops.close s)
  pub write_byte : (b : ℕ) (s : S) → P s → P (ops.write_byte b s)
  pub on_ready : (s : S) → P s → P (ops.on_ready s)
  pub on_old_version : (s : S) → P s → P (ops.on_old_version s)
  pub on_version_failed : (s : S) → P s → P (ops.on_version_failed s)

module _ {ℓ} {S : Type 0} (ops : Session S) (P : S → Type ℓ) (k : Keeps ops P) where
  read_packets-keeps : (fuel : ℕ) (buf : Bytes) (s : S) → P s → P (read_packets ops fuel buf s).1
  unfolding read_packets
  read_packets-keeps zero buf s p = p
  read_packets-keeps (suc fuel) buf s p = by_next (next_packet buf) (λ id payload rest.
      let s' = ops.on_packet id payload s in
      read_packets-keeps fuel (left_in ops s' rest) s' (k.on_packet id payload s p))
    where
      by_next :
          (n : Next)
          → ((id : ℕ) (payload rest : Bytes)
              → P
                  (read_packets ops fuel
                    (left_in ops (ops.on_packet id payload s) rest)
                    (ops.on_packet id payload s)).1)
          → P
              (elim n as (λ _. Bytes × S) [
                | incomplete ↦ (buf, s)
                | corrupted ↦ ([], ops.abort s)
                | packet id payload rest ↦
                    let s' = ops.on_packet id payload s in
                    read_packets ops fuel (left_in ops s' rest) s'
              ]).1
      by_next incomplete again = p
      by_next corrupted again = k.abort s p
      by_next (packet id payload rest) again = again id payload rest

  respond-keeps : (side : Side) (o : Outcome) (s : S) → P s → P (respond ops side o s)
  respond-keeps server_side (ready rest) s p = k.write_byte 3 s p
  respond-keeps server_side (failed rest) s p = k.write_byte 0xff s p
  respond-keeps _ _ s p = p

  give_up-keeps : (side : Side) (s : S) → P s → P (give_up ops side s)
  give_up-keeps client_side s p = k.abort (ops.on_version_failed s) (k.on_version_failed s p)
  give_up-keeps server_side s p = k.close (ops.on_version_failed s) (k.on_version_failed s p)

  after_handshake-keeps :
      (r : Reader S) (o : Outcome) → P r.session → P (after_handshake ops r o).session
  unfolding after_handshake read_all
  after_handshake-keeps r waiting p = p
  after_handshake-keeps r refused p = k.abort r.session p
  after_handshake-keeps r (old_version rest) p =
      k.close (ops.on_old_version r.session) (k.on_old_version r.session p)
  after_handshake-keeps r (failed rest) p =
      give_up-keeps r.side (respond ops r.side (failed rest) r.session)
        (respond-keeps r.side (failed rest) r.session p)
  after_handshake-keeps r (ready rest) p =
      let s = ops.on_ready (respond ops r.side (ready rest) r.session) in
      read_packets-keeps (length (left_in ops s rest)) (left_in ops s rest) s (
        k.on_ready (respond ops r.side (ready rest) r.session)
          (respond-keeps r.side (ready rest) r.session p))

  pub receive-keeps : (r : Reader S) (bytes : Bytes) → P r.session → P (receive ops r bytes).session
  unfolding receive read_all
  receive-keeps r bytes p =
      let r' = record r { buffer = r.buffer ++ bytes } in
      if_both (λ (q : Reader S). P q.session) (ops.is_readable r.session) (socket_readable ops r') r
        (if_both (λ (q : Reader S). P q.session) r.handshake_done
          (read_on ops r' (read_all ops r'.buffer r'.session))
          (after_handshake ops r' (handshake ops r'.side r'.buffer))
          (read_packets-keeps (length r'.buffer) r'.buffer r'.session p)
          (after_handshake-keeps r' (handshake ops r'.side r'.buffer) p))
        p
