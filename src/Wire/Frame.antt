-- ===== src/Wire/Frame.antt =====
-- Packets on the byte stream: the header that `ConnectionPrivate::writePacket` writes and the one
-- that `ConnectionPrivate::socketReadable` takes apart
-- (src/libtego/source/protocol/Connection.cpp). A byte is a number below 256; a packet is its two
-- lengths and the payload behind them.
use ricochet_irc.Prelude.{
  ℕ, ◌+◌, ◌-◌, ◌*◌, ◌/◌, ◌%◌, ◌≤◌, ◌<◌, ◌≡◌, List, ◌∷◌, ◌++◌, arith, ltb, if◌then◌else◌, length,
  take, drop, length-append, length-drop, take-append, drop-append, take-append_le, drop-append_le,
  All,
}

abbrev pub Bytes : Type 0
Bytes = List ℕ

abbrev pub uint16_max : ℕ
uint16_max = 65535

abbrev pub packet_header_size : ℕ
packet_header_size = 4

abbrev pub packet_max_data_size : ℕ
packet_max_data_size = uint16_max - packet_header_size

-- `qToBigEndian<quint16>`, in front of `rest`.
abbrev pub to_big_endian : ℕ → Bytes → Bytes
to_big_endian n rest = (n / 256 % 256) ∷ (n % 256) ∷ rest

abbrev pub from_big_endian : ℕ → ℕ → ℕ
from_big_endian hi lo = hi * 256 + lo

-- The bytes that `writePacket` puts on the socket once its guards have passed.
unfoldable pub encode : ℕ → Bytes → Bytes
encode id payload = to_big_endian (packet_header_size + length payload) (to_big_endian id payload)

-- What the reading loop finds at the front of the buffer.
pub data Next : Type 0 where
  incomplete : Next
  corrupted : Next
  packet : ℕ → Bytes → Bytes → Next

-- The tests on a header that has arrived: the size field, the channel, and what lies behind.
split_packet : ℕ → ℕ → Bytes → Next
split_packet size id rest =
    if ltb size packet_header_size
    then corrupted
    else if ltb (packet_header_size + length rest) size
    then incomplete
    else packet id (take (size - packet_header_size) rest) (drop (size - packet_header_size) rest)

unfoldable pub next_packet : Bytes → Next
unfolding split_packet
next_packet (a ∷ b ∷ c ∷ d ∷ rest) = split_packet (from_big_endian a b) (from_big_endian c d) rest
next_packet _ = incomplete

pub big_endian_inverse : (n : ℕ) → n ≤ uint16_max → from_big_endian (n / 256 % 256) (n % 256) ≡ n
big_endian_inverse n h = omega arith

split_packet-whole :
    (id : ℕ) (payload rest : Bytes)
    → split_packet (packet_header_size + length payload) id (payload ++ rest)
      ≡ packet id payload rest
unfolding split_packet
split_packet-whole id payload rest =
    let size : packet_header_size + length payload - packet_header_size ≡ length payload =
      omega arith in
    rw size (
      ground
        (arith, length-append payload rest, take-append payload rest, drop-append payload rest))

split_packet-append :
    (size id : ℕ) (r more : Bytes) (i : ℕ) (payload rest : Bytes)
    → split_packet size id r ≡ packet i payload rest
    → split_packet size id (r ++ more) ≡ packet i payload (rest ++ more)
unfolding split_packet
split_packet-append size id r more i payload rest e = ground (
  arith,
  length-append r more,
  take-append_le (size - packet_header_size) r more,
  drop-append_le (size - packet_header_size) r more,
)

split_packet-length :
    (size id : ℕ) (r : Bytes) (i : ℕ) (payload rest : Bytes)
    → split_packet size id r ≡ packet i payload rest
    → length rest ≤ length r
unfolding split_packet
split_packet-length size id r i payload rest e =
    ground (arith, length-drop (size - packet_header_size) r)

-- A packet that was written within the limits is read back, with the bytes behind it.
pub next_packet-encode :
    (id : ℕ) (payload rest : Bytes)
    → id ≤ uint16_max
    → length payload ≤ packet_max_data_size
    → next_packet (encode id payload ++ rest) ≡ packet id payload rest
unfolding next_packet encode
next_packet-encode id payload rest hi hl =
    rw
      (
        big_endian_inverse id hi,
        big_endian_inverse (packet_header_size + length payload) (omega arith),
      )
      (split_packet-whole id payload rest)

-- More bytes behind a whole packet do not change what is read.
pub next_packet-append :
    (buf more : Bytes) (id : ℕ) (payload rest : Bytes)
    → next_packet buf ≡ packet id payload rest
    → next_packet (buf ++ more) ≡ packet id payload (rest ++ more)
unfolding next_packet
next_packet-append (a ∷ b ∷ c ∷ d ∷ r) more id payload rest e =
    split_packet-append (from_big_endian a b) (from_big_endian c d) r more id payload rest e
next_packet-append _ more id payload rest e = absurd (cc)

-- Nor do they mend a header that is corrupted.
pub next_packet-corrupted :
    (buf more : Bytes) → next_packet buf ≡ corrupted → next_packet (buf ++ more) ≡ corrupted
unfolding next_packet
next_packet-corrupted (a ∷ b ∷ c ∷ d ∷ r) more e = ground arith
next_packet-corrupted _ more e = absurd (cc)

-- Each packet takes its header at least off the buffer.
pub next_packet-length :
    (buf : Bytes) (id : ℕ) (payload rest : Bytes)
    → next_packet buf ≡ packet id payload rest
    → length rest < length buf
unfolding next_packet
next_packet-length (a ∷ b ∷ c ∷ d ∷ r) id payload rest e =
    omega
      (arith, split_packet-length (from_big_endian a b) (from_big_endian c d) r id payload rest e)
next_packet-length _ id payload rest e = absurd (cc)

-- What is written is bytes again.
pub encode-bytes :
    (id : ℕ) (payload : Bytes) → All (λ b. b < 256) payload → All (λ b. b < 256) (encode id payload)
unfolding encode
encode-bytes id payload h = (omega arith, (omega arith, (omega arith, (omega arith, h))))
