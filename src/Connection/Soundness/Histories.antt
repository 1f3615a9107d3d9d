-- ===== src/Connection/Soundness/Histories.antt =====
-- A connection stays sound through every history of events, and what that means for the channels
-- that carry messages and files.
use ricochet_irc.Prelude.{
  ℕ, ◌%◌, ◌≤◌, ◌≡◌, All, refl, true, false, List, [], ◌∷◌, some, Entries-find, find, arith, ◌==◌,
}
use ricochet_irc.Wire.Frame.{uint16_max}
use ricochet_irc.Wire.Reader.{Side, client_side, server_side}
use ricochet_irc.Connection.State.{
  Conn, Channel, Text, control, known_contact, hidden_service_auth, has_authenticated, is_inbound,
  same_kind,
}
use ricochet_irc.Connection.Requests.{Env}
use ricochet_irc.Connection.Control.{keep_alive}
use ricochet_irc.Connection.Events.{
  Event, receives, opens, closes, sends, sends_keep_alive, sets_purpose, closes_connection,
  socket_disconnects, socket_aborts, purpose_timeout, close_timeout, blank, start_client, new_conn,
  step, run,
}
use ricochet_irc.Connection.Soundness.{ChannelOk, IsSound, Proves, is_for_contact, parity_of}
use ricochet_irc.Connection.Soundness.Parts
use ricochet_irc.Connection.Soundness.Parts.{
  send_message-IsSound, write_packet-IsSound, close_channel-IsSound, Sound-put,
  grant_authentication-IsSound, set_purpose-IsSound,
}
use ricochet_irc.Connection.Soundness.Packets.{on_packet-IsSound}
use ricochet_irc.Connection.Soundness.Requests.{open_channel-IsSound}

module _ {Proven : Text → Type 0} where
  -- Every event of the environment, of the peer and of the program keeps a connection sound.
  pub step-IsSound :
      (env : Env) (e : Event) (c : Conn)
      → Proves Proven env
      → IsSound Proven c
      → IsSound Proven (step env e c)
  unfolding step keep_alive
  step-IsSound env (receives id p) c proves s = on_packet-IsSound env id p c proves s
  step-IsSound env (opens kind nickname message) c proves s =
      open_channel-IsSound env kind nickname message c s
  step-IsSound env (closes id) c proves s = close_channel-IsSound id c s
  step-IsSound env (sends id p) c proves s = send_message-IsSound id p c s
  step-IsSound env sends_keep_alive c proves s = send_message-IsSound 0 _ c s
  step-IsSound env (sets_purpose p) c proves s = set_purpose-IsSound p c s
  step-IsSound env closes_connection c proves s = Parts.close-IsSound c s
  step-IsSound env socket_disconnects c proves s = Parts.socket_disconnected-IsSound c s
  step-IsSound env socket_aborts c proves s = Parts.abort-IsSound c s
  step-IsSound env purpose_timeout c proves s = Parts.purpose_timeout-IsSound c s
  step-IsSound env close_timeout c proves s = Parts.close_immediately-IsSound c s

  blank-IsSound : (side : Side) → IsSound Proven (blank side)
  blank-IsSound client_side = record {
    entries = (ground arith, tt);
    contact_known = λ e. absurd (cc);
    proven = λ name e. absurd (cc);
    requester = λ e. absurd (cc);
    requested = λ e. absurd (cc);
  }
  blank-IsSound server_side = record {
    entries = (ground arith, tt);
    contact_known = λ e. absurd (cc);
    proven = λ name e. absurd (cc);
    requester = λ e. absurd (cc);
    requested = λ e. absurd (cc);
  }

  -- The client takes the name that it has connected to as proven by the transport.
  pub new_conn-IsSound :
      (side : Side) (hostname : Text)
      → (side ≡ client_side → Proven hostname)
      → IsSound Proven (new_conn side hostname)
  unfolding new_conn start_client
  new_conn-IsSound client_side [] p =
      Parts.close-IsSound (blank client_side) (blank-IsSound client_side)
  new_conn-IsSound client_side (x ∷ xs) p =
      grant_authentication-IsSound hidden_service_auth (x ∷ xs) (blank client_side) (λ _. p refl)
        (blank-IsSound client_side)
  new_conn-IsSound server_side hostname p = blank-IsSound server_side

  run-IsSound :
      (es : List (Env × Event)) (c : Conn)
      → All (λ e. Proves Proven e.0) es
      → IsSound Proven c
      → IsSound Proven (run es c)
  unfolding run
  run-IsSound [] c p s = s
  run-IsSound ((env, e) ∷ es) c p s = run-IsSound es (step env e c) p.1 (step-IsSound env e c p.0 s)

-- After any history of a connection, whose events may be the peer's packets in any order, the
-- connection has only names that were proven to it: on the server side by a signature that verified
-- while an event was handled, on the client side by the transport.
pub authenticated_names_proven :
    (Proven : Text → Type 0) (side : Side) (hostname : Text) (es : List (Env × Event)) (name : Text)
    → (side ≡ client_side → Proven hostname)
    → All (λ e. Proves Proven e.0) es
    → (run es (new_conn side hostname)).hidden_service ≡ some name
    → Proven name
authenticated_names_proven Proven side hostname es name transport proves h =
    (run-IsSound {Proven = Proven} es (new_conn side hostname) proves
        (new_conn-IsSound side hostname transport)).proven
      name h

abbrev Anything : Text → Type 0
Anything name = Unit {0}

Anything-proves : (es : List (Env × Event)) → All (λ e. Proves Anything e.0) es
Anything-proves [] = tt
Anything-proves (e ∷ es) = ((λ ch signature service_id h. tt), Anything-proves es)

any_run :
    (side : Side) (hostname : Text) (es : List (Env × Event))
    → IsSound Anything (run es (new_conn side hostname))
any_run side hostname es =
    run-IsSound es (new_conn side hostname) (Anything-proves es)
      (new_conn-IsSound side hostname (λ _. tt))

-- After any history, a chat or file channel in the table means that the purpose of the connection
-- is a known contact and that the peer's service was authenticated.
pub contact_channels_authenticated :
    (side : Side) (hostname : Text) (es : List (Env × Event)) (id : ℕ) (ch : Channel)
    → let c = run es (new_conn side hostname) in
      find id c.channels ≡ some ch
      → is_for_contact ch ≡ true
      → (c.purpose ≡ known_contact) × (has_authenticated hidden_service_auth c ≡ true)
unfolding has_authenticated
contact_channels_authenticated side hostname es id ch e f =
    let c = run es (new_conn side hostname) in
    let s = any_run side hostname es in
    let ok = Entries-find (ChannelOk c.side c.purpose) id c.channels ch s.entries e in
    (ok.for_contact f, s.contact_known (ok.for_contact f))

-- After any history, channel 0 can only be the control channel, the control channel has no other
-- number, and every other channel in the table has a 16-bit number of the parity of the side that
-- opened it; a channel that the peer has opened is open.
pub channel_numbers :
    (side : Side) (hostname : Text) (es : List (Env × Event)) (id : ℕ) (ch : Channel)
    → let c = run es (new_conn side hostname) in
      find id c.channels ≡ some ch
      → (id ≤ uint16_max)
        × (same_kind control ch.kind ≡ (id == 0))
        × (same_kind control ch.kind ≡ false → id % 2 ≡ parity_of c.side ch.direction)
        × (is_inbound ch.direction ≡ true → ch.is_opened ≡ true)
channel_numbers side hostname es id ch e =
    let c = run es (new_conn side hostname) in
    let s = any_run side hostname es in
    let ok = Entries-find (ChannelOk c.side c.purpose) id c.channels ch s.entries e in
    (ok.fits, ok.is_control, ok.parity, ok.opened)
