-- ===== src/Connection/Serving.antt =====
-- The connection behind the reading loop of `socketReadable`
-- (src/libtego/source/protocol/Connection.cpp): `Conn` is a `Session` of the byte stream.
use ricochet_irc.Prelude.{
  ℕ, ◌≡◌, refl, true, false, List, [], ◌∷◌, ◌++◌, Option, none, some, find, is_some, All,
  Entries-find, arith,
}
use ricochet_irc.Wire.Frame.{Bytes}
use ricochet_irc.Wire.Reader.{Session, Reader, Side, server_side, receive}
use ricochet_irc.Wire.Reader.Invariance.{Keeps, receive-keeps}
use ricochet_irc.Connection.State.{
  Conn, Channel, Text, known_contact, closed, emit, connection_ready, old_version_negotiated,
  version_negotiation_failed,
}
use ricochet_irc.Connection.Channels.{abort, close}
use ricochet_irc.Connection.Closing.{socket-abort}
use ricochet_irc.Connection.Events.{Event, new_conn, step, on_packet, is_readable}
use ricochet_irc.Connection.Requests.{Env}
use ricochet_irc.Connection.Soundness.{ChannelOk, IsSound, Proves, is_for_contact}
use ricochet_irc.Connection.Soundness.Parts.{abort-IsSound, close-IsSound}
use ricochet_irc.Connection.Soundness.Packets.{on_packet-IsSound}
use ricochet_irc.Connection.Soundness.Histories.{step-IsSound, new_conn-IsSound}

pub closed_unreadable : (c : Conn) → c.socket ≡ closed → is_readable c ≡ false
closed_unreadable c e = ground arith

pub abort_unreadable : (c : Conn) → is_readable (abort c) ≡ false
abort_unreadable c = closed_unreadable (abort c) (socket-abort c)

abbrev pub session : Env → Session Conn
session env = record {
  on_packet = on_packet env;
  abort = abort;
  close = close;
  write_byte = λ b c. record c { handshake_written = c.handshake_written ++ b ∷ [] };
  on_ready = emit connection_ready;
  on_old_version = emit old_version_negotiated;
  on_version_failed = emit version_negotiation_failed;
  is_readable = is_readable;
  abort_unreadable = abort_unreadable;
}

-- Everything that happens to a connection whose peer writes to its socket: bytes in pieces of any
-- size, and the events of this side in between.
pub data Input : Type 0 where
  bytes : Bytes → Input
  event : Event → Input

unfoldable pub serve : List (Env × Input) → Reader Conn → Reader Conn
serve [] r = r
serve ((env, bytes b) ∷ rest) r = serve rest (receive (session env) r b)
serve ((env, event e) ∷ rest) r = serve rest (record r { session = step env e r.session })

abbrev pub accept : Side → Text → Reader Conn
accept side hostname = record {
  side = side;
  handshake_done = false;
  buffer = [];
  session = new_conn side hostname;
}

session-Keeps :
    (Proven : Text → Type 0) (env : Env) → Proves Proven env → Keeps (session env) (IsSound Proven)
session-Keeps Proven env proves = record {
  on_packet = λ id p c s. on_packet-IsSound env id p c proves s;
  abort = abort-IsSound;
  close = close-IsSound;
  write_byte = λ b c s. s;
  on_ready = λ c s. s;
  on_old_version = λ c s. s;
  on_version_failed = λ c s. s;
}

serve-IsSound :
    (Proven : Text → Type 0) (inputs : List (Env × Input)) (r : Reader Conn)
    → All (λ i. Proves Proven i.0) inputs
    → IsSound Proven r.session
    → IsSound Proven (serve inputs r).session
unfolding serve
serve-IsSound Proven [] r p s = s
serve-IsSound Proven ((env, bytes b) ∷ rest) r p s =
    serve-IsSound Proven rest (receive (session env) r b) p.1
      (receive-keeps (session env) (IsSound Proven) (session-Keeps Proven env p.0) r b s)
serve-IsSound Proven ((env, event e) ∷ rest) r p s =
    serve-IsSound Proven rest (record r { session = step env e r.session }) p.1
      (step-IsSound env e r.session p.0 s)

-- Whatever bytes a peer writes to a connection that this program has accepted, cut in whatever
-- pieces and mixed with any calls and timers of this side: if the table then holds a chat or file
-- channel, the connection is that of a known contact, it carries the name of a service, and that
-- name was proven to it by a signature that verified.
pub served_contact_proven :
    (Proven : Text → Type 0) (hostname : Text) (inputs : List (Env × Input)) (id : ℕ) (ch : Channel)
    → All (λ i. Proves Proven i.0) inputs
    → find id (serve inputs (accept server_side hostname)).session.channels ≡ some ch
    → is_for_contact ch ≡ true
    → let c = (serve inputs (accept server_side hostname)).session in
      (c.purpose ≡ known_contact) × (name : Text) × (c.hidden_service ≡ some name) × Proven name
served_contact_proven Proven hostname inputs id ch proves e f =
    let c = (serve inputs (accept server_side hostname)).session in
    let s : IsSound Proven c =
      serve-IsSound Proven inputs (accept server_side hostname) proves
        (new_conn-IsSound server_side hostname (λ side. absurd (cc))) in
    let ok = Entries-find (ChannelOk c.side c.purpose) id c.channels ch s.entries e in
    let known = ok.for_contact f in named c.hidden_service known (s.contact_known known) s.proven
  where
    named :
        {T : Type 0} {Proven' : Text → Type 0} (service : Option Text)
        → T
        → is_some service ≡ true
        → ((name : Text) → service ≡ some name → Proven' name)
        → T × (name : Text) × (service ≡ some name) × Proven' name
    named none t h p = absurd (cc)
    named (some name) t h p = (t, name, refl, p name refl)
