-- ===== src/Wire/Reader/Delivery.antt =====
-- What `socketReadable` hands on of a stream that `writePacket` of the peer has written
-- (src/libtego/source/protocol/Connection.cpp).
use ricochet_irc.Prelude.{ℕ, ◌≤◌, ◌≡◌, ◌∙◌, true, false, List, [], ◌∷◌, ◌++◌, length, All, arith}
use ricochet_irc.Wire.Frame.{Bytes, encode, next_packet-encode, uint16_max, packet_max_data_size}
use ricochet_irc.Wire.Handshake.{intro, handshake_agrees}
use ricochet_irc.Wire.Reader.{Session, server_side, read_all, receive}
use ricochet_irc.Wire.Reader.Chunks.{read_all-packet, read_all-empty}

-- A packet that `writePacket` accepts: its channel and its payload.
abbrev pub IsWritable : ℕ × Bytes → Type 0
IsWritable (id, payload) = (id ≤ uint16_max) × (length payload ≤ packet_max_data_size)

abbrev pub encode_all : List (ℕ × Bytes) → Bytes
encode_all [] = []
encode_all ((id, payload) ∷ ps) = encode id payload ++ encode_all ps

module _ {S : Type 0} (ops : Session S) where
  open ops use {on_packet, write_byte, on_ready, is_readable}

  -- The packets handled one after the other.
  abbrev pub deliver : List (ℕ × Bytes) → S → S
  deliver [] s = s
  deliver ((id, payload) ∷ ps) s = deliver ps (on_packet id payload s)

  -- The socket stays readable while they are handled.
  abbrev pub StaysReadable : List (ℕ × Bytes) → S → Type 0
  StaysReadable [] s = Unit {0}
  StaysReadable ((id, payload) ∷ ps) s =
      (is_readable (on_packet id payload s) ≡ true) × StaysReadable ps (on_packet id payload s)

  pub read_all-encode_all :
      (ps : List (ℕ × Bytes)) (s : S)
      → All IsWritable ps
      → StaysReadable ps s
      → read_all ops (encode_all ps) s ≡ ([], deliver ps s)
  read_all-encode_all [] s w k = read_all-empty ops s
  read_all-encode_all ((id, payload) ∷ ps) s w k =
      read_all-packet ops (encode_all ((id, payload) ∷ ps)) s id payload (encode_all ps)
        (next_packet-encode id payload (encode_all ps) w.0.0 w.0.1)
      ∙ rw k.0 (read_all-encode_all ps (on_packet id payload s) w.1 k.1)

  -- A server on a socket that is readable at first, behind on_ready and behind each packet, which
  -- receives the introduction and then packets that the peer was allowed to write: it answers with
  -- version 3, is ready, handles each packet once and in order, and keeps no byte.
  pub receive_session :
      (ps : List (ℕ × Bytes)) (s : S)
      → All IsWritable ps
      → is_readable s ≡ true
      → is_readable (on_ready (write_byte 3 s)) ≡ true
      → StaysReadable ps (on_ready (write_byte 3 s))
      → receive ops
          (record { side = server_side; handshake_done = false; buffer = []; session = s })
          (intro ++ encode_all ps)
        ≡ record {
          side = server_side;
          handshake_done = true;
          buffer = [];
          session = deliver ps (on_ready (write_byte 3 s));
        }
  unfolding receive
  receive_session ps s w r r' k = ground (
    arith,
    handshake_agrees (encode_all ps) [],
    read_all-encode_all ps (on_ready (write_byte 3 s)) w k,
  )
