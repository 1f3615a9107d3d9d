-- ===== src/Wire/Reader.antt =====
-- The whole of `ConnectionPrivate::socketReadable` (src/libtego/source/protocol/Connection.cpp):
-- the handshake, and then the loop over the packets in the buffer. What a packet, an abort or the
-- end of the handshake does to the rest of the program is behind the interface `Session`.
pub mod Chunks
pub mod Delivery
pub mod Invariance
use ricochet_irc.Prelude.{
  ℕ, zero, suc, ◌≡◌, Bool, true, false, List, [], ◌∷◌, ◌++◌, if◌then◌else◌, length,
}
use ricochet_irc.Wire.Frame.{Bytes, Next, incomplete, corrupted, packet, next_packet}
use ricochet_irc.Wire.Handshake.{
  Outcome, waiting, refused, old_version, failed, ready, client_handshake, server_handshake, answer,
}

pub data Side : Type 0 where
  client_side server_side : Side

-- `S` is the connection behind the socket.
pub record Session (S : Type 0) : Type 0 where
  -- The channel of the packet handles it; an empty payload closes that channel.
  pub on_packet : ℕ → Bytes → S → S
  -- `socket->abort()`: nothing can be read afterwards.
  pub abort : S → S
  -- `q->close()`.
  pub close : S → S
  pub write_byte : ℕ → S → S
  pub on_ready : S → S
  pub on_old_version : S → S
  pub on_version_failed : S → S
  -- The socket still delivers bytes.
  pub is_readable : S → Bool
  pub abort_unreadable : (s : S) → is_readable (abort s) ≡ false

pub record Reader (S : Type 0) : Type 0 where
  pub side : Side
  pub handshake_done : Bool
  pub buffer : Bytes
  pub session : S

module _ {S : Type 0} (ops : Session S) where
  open ops use {
    on_packet, abort, close, write_byte, on_ready, on_old_version, on_version_failed, is_readable,
  }

  -- `socket->bytesAvailable()` after a handler has run: nothing once the socket is aborted.
  abbrev pub left_in : S → Bytes → Bytes
  left_in s rest = if is_readable s then rest else []

  -- The `while` loop. Each round takes at least a header off the buffer, so the buffer's length is
  -- enough fuel.
  unfoldable pub read_packets : ℕ → Bytes → S → Bytes × S
  read_packets zero buf s = (buf, s)
  read_packets (suc fuel) buf s = elim (next_packet buf) [
    | incomplete ↦ (buf, s)
    | corrupted ↦ ([], abort s)
    | packet id payload rest ↦
        let s' = on_packet id payload s in read_packets fuel (left_in s' rest) s'
  ]

  unfoldable pub read_all : Bytes → S → Bytes × S
  read_all buf s = read_packets (length buf) buf s

  abbrev pub handshake : Side → Bytes → Outcome
  handshake client_side = client_handshake
  handshake server_side = server_handshake

  -- The server answers with the version that it has chosen; the client answers nothing.
  abbrev pub respond : Side → Outcome → S → S
  respond server_side (ready rest) s = write_byte 3 s
  respond server_side (failed rest) s = write_byte 0xff s
  respond _ _ s = s

  -- A failed negotiation: the client aborts, the server closes so that its answer is sent.
  abbrev pub give_up : Side → S → S
  give_up client_side s = abort (on_version_failed s)
  give_up server_side s = close (on_version_failed s)

  read_on : Reader S → Bytes × S → Reader S
  read_on r (buf, s) = record r { handshake_done = true; buffer = buf; session = s }

  stop : Reader S → Bytes → S → Reader S
  stop r rest s = record r { handshake_done = true; buffer = left_in s rest; session = s }

  after_handshake : Reader S → Outcome → Reader S
  unfolding read_on stop
  after_handshake r waiting = r
  after_handshake r refused = record r { buffer = []; session = abort r.session }
  after_handshake r (old_version rest) = stop r rest (close (on_old_version r.session))
  after_handshake r (failed rest) =
      stop r rest (give_up r.side (respond r.side (failed rest) r.session))
  after_handshake r (ready rest) =
      let s = on_ready (respond r.side (ready rest) r.session) in
      read_on r (read_all (left_in s rest) s)

  unfoldable pub socket_readable : Reader S → Reader S
  unfolding after_handshake read_on
  socket_readable r =
      if r.handshake_done
      then read_on r (read_all r.buffer r.session)
      else after_handshake r (handshake r.side r.buffer)

  -- The socket receives bytes and signals `readyRead`.
  unfoldable pub receive : Reader S → Bytes → Reader S
  unfolding socket_readable
  receive r bytes =
      if is_readable r.session then socket_readable (record r { buffer = r.buffer ++ bytes }) else r
