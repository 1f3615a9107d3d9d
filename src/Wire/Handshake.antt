-- ===== src/Wire/Handshake.antt =====
-- The version handshake of a connection: the introduction that `ConnectionPrivate::setSocket`
-- writes, and the first half of `ConnectionPrivate::socketReadable`
-- (src/libtego/source/protocol/Connection.cpp).
use ricochet_irc.Prelude.{
  ℕ, ◌≡◌, refl, [], ◌∷◌, ◌++◌, Bool, false, ◌||◌, ◌≢◌, not, arith, ltb, ◌==◌, if◌then◌else◌, length,
  take, drop, length-append, take-append, drop-append, take-append_le, drop-append_le,
}
use ricochet_irc.Wire.Frame.{Bytes}

abbrev pub protocol_version : ℕ
protocol_version = 3

abbrev pub protocol_version_failed : ℕ
protocol_version_failed = 0xff

-- `intro` in `setSocket`: magic, the number of versions, the versions.
abbrev pub intro : Bytes
intro = 0x49 ∷ 0x4D ∷ 0x01 ∷ protocol_version ∷ []

-- What the handshake half of `socketReadable` decides on the bytes that are there.
pub data Outcome : Type 0 where
  -- Not enough bytes: return and wait.
  waiting : Outcome
  -- The socket is aborted.
  refused : Outcome
  -- Client: the server runs protocol 1.0; the connection is closed.
  old_version : Bytes → Outcome
  -- No version in common; on the server side the answer is still written.
  failed : Bytes → Outcome
  -- The bytes left are packets.
  ready : Bytes → Outcome

unfoldable pub offers : ℕ → Bytes → Bool
offers v [] = false
offers v (b ∷ bs) = (b == v) || offers v bs

-- The loop over `versions`.
unfoldable pub select_version : Bytes → ℕ
unfolding offers
select_version versions =
    if offers protocol_version versions then protocol_version else protocol_version_failed

-- Reading the version byte that the server has chosen.
unfoldable pub client_handshake : Bytes → Outcome
client_handshake [] = waiting
client_handshake (version ∷ rest) =
    if version == 0
    then old_version rest
    else if not (version == protocol_version)
    then failed rest
    else ready rest

server_choice : ℕ → Bytes → Outcome
server_choice version rest = if version == protocol_version then ready rest else failed rest

server_versions : ℕ → Bytes → Outcome
unfolding server_choice select_version
server_versions n_versions rest =
    if ltb (length rest) n_versions
    then waiting
    else server_choice (select_version (take n_versions rest)) (drop n_versions rest)

-- The introduction of the client: magic bytes, then `n_versions` versions.
unfoldable pub server_handshake : Bytes → Outcome
unfolding server_versions
server_handshake (a ∷ b ∷ n_versions ∷ rest) =
    if not (a == 0x49) || (not (b == 0x4D) || n_versions == 0)
    then refused
    else server_versions n_versions rest
server_handshake _ = waiting

-- The byte that the server writes back once it has read the whole introduction.
abbrev pub answer : Outcome → Bytes
answer (ready rest) = protocol_version ∷ []
answer (failed rest) = protocol_version_failed ∷ []
answer _ = []

abbrev pub extend : Bytes → Outcome → Outcome
extend more waiting = waiting
extend more refused = refused
extend more (old_version rest) = old_version (rest ++ more)
extend more (failed rest) = failed (rest ++ more)
extend more (ready rest) = ready (rest ++ more)

server_versions-append :
    (n : ℕ) (rest more : Bytes)
    → server_versions n rest ≢ waiting
    → server_versions n (rest ++ more) ≡ extend more (server_versions n rest)
unfolding server_versions
server_versions-append n rest more h =
    ground (arith, length-append rest more, take-append_le n rest more, drop-append_le n rest more)

-- Two peers of this version agree, whatever packets follow on either side: the server accepts the
-- introduction that the client writes, and the client accepts the byte that the server answers.
pub handshake_agrees :
    (to_server to_client : Bytes)
    → (server_handshake (intro ++ to_server) ≡ ready to_server)
      × (client_handshake (answer (server_handshake (intro ++ to_server)) ++ to_client)
          ≡ ready to_client)
unfolding server_handshake client_handshake
handshake_agrees to_server to_client = (ground arith, ground arith)

-- Any well-formed introduction is decided, for the version exactly when it is on offer.
pub server_handshake-decides :
    (versions rest : Bytes)
    → versions ≢ []
    → server_handshake (0x49 ∷ 0x4D ∷ length versions ∷ (versions ++ rest))
      ≡ (if offers protocol_version versions then ready rest else failed rest)
unfolding server_handshake
server_handshake-decides [] rest h = absurd (h refl)
server_handshake-decides (v ∷ vs) rest h =
    ground
      (arith, length-append (v ∷ vs) rest, take-append (v ∷ vs) rest, drop-append (v ∷ vs) rest)

-- A decision does not depend on how much has arrived behind it.
pub server_handshake-append :
    (buf more : Bytes)
    → server_handshake buf ≢ waiting
    → server_handshake (buf ++ more) ≡ extend more (server_handshake buf)
unfolding server_handshake
server_handshake-append (a ∷ b ∷ n ∷ rest) more h =
    ground (arith, server_versions-append n rest more)
server_handshake-append _ more h = absurd (h refl)

pub client_handshake-append :
    (buf more : Bytes)
    → client_handshake buf ≢ waiting
    → client_handshake (buf ++ more) ≡ extend more (client_handshake buf)
unfolding client_handshake
client_handshake-append [] more h = absurd (h refl)
client_handshake-append (v ∷ rest) more h = ground arith
