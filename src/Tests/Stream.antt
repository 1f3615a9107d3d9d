-- ===== src/Tests/Stream.antt =====
-- The byte stream at concrete inputs (src/libtego/source/protocol/Connection.cpp).
use ricochet_irc.Prelude.{ℕ, ◌≡◌, refl, Bool, true, false, List, [], ◌∷◌, ◌++◌, arith}
use ricochet_irc.Wire.Frame.{Bytes, encode, next_packet, packet, next_packet-encode}
use ricochet_irc.Wire.Handshake.{server_handshake, failed, offers, server_handshake-decides, intro}
use ricochet_irc.Wire.Reader.{Session, Reader, server_side, read_packets, read_all, receive}
use ricochet_irc.Wire.Reader.Chunks.{read_packets-fuel, receive_in_pieces}
use ricochet_irc.Wire.Reader.Delivery.{receive_session, encode_all, deliver}

-- A session that keeps the packets it is handed, and is closed by an empty one on channel 0.
record Collected : Type 0 where
  packets : List (ℕ × Bytes)
  is_open : Bool

collect : ℕ → Bytes → Collected → Collected
collect id payload s = record s { packets = s.packets ++ (id, payload) ∷ [] }

abbrev collecting : Session Collected
collecting = record {
  on_packet = collect;
  abort = λ s. record s { is_open = false };
  close = λ s. s;
  write_byte = λ b s. s;
  on_ready = λ s. s;
  on_old_version = λ s. s;
  on_version_failed = λ s. s;
  is_readable = λ s. s.is_open;
  abort_unreadable = λ s. refl;
}

abbrev nothing : Collected
nothing = record { packets = []; is_open = true }

abbrev two_packets : List (ℕ × Bytes)
two_packets = (1, 7 ∷ []) ∷ (0, 5 ∷ 6 ∷ []) ∷ []

next_packet-encode_example :
    next_packet (encode 1 (7 ∷ 8 ∷ []) ++ 9 ∷ []) ≡ packet 1 (7 ∷ 8 ∷ []) (9 ∷ [])
next_packet-encode_example = next_packet-encode 1 (7 ∷ 8 ∷ []) (9 ∷ []) (omega arith) (omega arith)

server_handshake-decides_example : server_handshake (0x49 ∷ 0x4D ∷ 2 ∷ 1 ∷ 2 ∷ []) ≡ failed []
unfolding offers
server_handshake-decides_example = server_handshake-decides (1 ∷ 2 ∷ []) [] (λ e. cc)

read_packets-fuel_example :
    read_packets collecting 11 (encode_all two_packets) nothing
    ≡ read_packets collecting 20 (encode_all two_packets) nothing
unfolding encode
read_packets-fuel_example =
    read_packets-fuel collecting 11 20 (encode_all two_packets) nothing (omega arith) (omega arith)

abbrev begun : Reader Collected
begun = record { side = server_side; handshake_done = true; buffer = 0 ∷ 6 ∷ []; session = nothing }

receive_in_pieces_example :
    receive collecting (receive collecting begun (0 ∷ [])) (1 ∷ 7 ∷ 8 ∷ 0 ∷ [])
    ≡ receive collecting begun (0 ∷ 1 ∷ 7 ∷ 8 ∷ 0 ∷ [])
receive_in_pieces_example = receive_in_pieces collecting begun (0 ∷ []) (1 ∷ 7 ∷ 8 ∷ 0 ∷ []) refl

-- The packet is complete with the second piece, and one byte waits.
pieces_read :
    receive collecting (receive collecting begun (0 ∷ [])) (1 ∷ 7 ∷ 8 ∷ 0 ∷ []) ≡ record begun {
      buffer = 0 ∷ [];
      session = record { packets = (1, 7 ∷ 8 ∷ []) ∷ []; is_open = true };
    }
unfolding receive read_all read_packets next_packet collect
pieces_read = refl

receive_session_example :
    receive collecting
      (record { side = server_side; handshake_done = false; buffer = []; session = nothing })
      (intro ++ encode_all two_packets)
    ≡ record {
      side = server_side;
      handshake_done = true;
      buffer = [];
      session = deliver collecting two_packets nothing;
    }
unfolding collect
receive_session_example =
    receive_session collecting two_packets nothing
      ((omega arith, omega arith), ((omega arith, omega arith), tt)) refl refl (refl, (refl, tt))
