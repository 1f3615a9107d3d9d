-- ===== src/Irc/Admission/Histories.antt =====
-- Any history of the IRC server (src/irc): its channels have only members that are admitted, and
-- it gives orders only for them.
use ricochet_irc.Prelude.{
  ℕ, ◌≡◌, refl, true, false, List, [], ◌∷◌, find, is_some, Entries-put, codes, same, All, if_both,
  arith,
}
use ricochet_irc.Connection.State.{Text}
use ricochet_irc.Irc.State.{IrcServer}
use ricochet_irc.Irc.Users.{Qt, new_connection, new_connection_object}
use ricochet_irc.Irc.Control.{Setup, start, fresh_server, ricochet_user}
use ricochet_irc.Irc.Commands.{ricochet_hooks}
use ricochet_irc.Irc.Events.{
  Event, connected, dropped, line, contacts_changed, requests_changed, contact_status_changed,
  tor_running, tor_control_status, message_from, request_arrived, step, run,
}
use ricochet_irc.Irc.Evolution.{Guests, next, add_member-Evolves, get_channel-Evolves}
use ricochet_irc.Irc.Evolution.Relay.{disconnect-Evolves}
use ricochet_irc.Irc.Evolution.Control.{user_left-Evolves}
use ricochet_irc.Irc.Evolution.Commands.{
  forward_message-Evolves, on_tor_control_status_changed-Evolves,
}
use ricochet_irc.Irc.Evolution.Slots.{
  on_contact_status_changed-Evolves, tor_running_changed-Evolves, request_added-Evolves,
}
use ricochet_irc.Irc.Admission.{Member, Allowed, policy, Shown, Sound, evolve-Sound, Sound-later}
use ricochet_irc.Irc.Admission.Lines.{Sound-Invariant, Sound-Registers}
use ricochet_irc.Irc.Handling.Lines.{handle_line-Kept}
use ricochet_irc.Irc.Handling.Ricochet.{ricochet_hooks-Lawful}

module _ (setup : Setup) (password : Text) (given : same password [] ≡ false) where
  abbrev qt : Qt
  qt = setup.qt

  new_connection-Sound :
      (es : List Event) (c : ℕ) (s : IrcServer)
      → Sound qt password es s
      → Sound qt password es (new_connection qt c s)
  unfolding new_connection
  new_connection-Sound es c s g =
      if_both (Sound qt password es) (is_some (find c s.connections)) _ _ g (record {
        password_kept = g.password_kept;
        shown =
            Entries-put (Shown qt password es) c (new_connection_object s.password (qt.host c))
              s.connections
              (record {
                passed = λ k. absurd (ground (arith, empty_pass k));
                named = λ k. absurd (cc);
                registered = λ k. absurd (cc);
              })
              g.shown;
        members = g.members;
        calls = g.calls;
      })
    where
      empty_pass : same s.password [] ≡ true → false ≡ true
      empty_pass k = simp (← given, ← g.password_kept, k)

  step-Sound :
      (es : List Event) (e : Event) (s : IrcServer)
      → Sound qt password es s
      → Sound qt password (e ∷ es) (step setup e s)
  unfolding step
  step-Sound es e s g = by_event e (Sound-later qt password e es s g)
    where
      by_event :
          (e : Event) → Sound qt password (e ∷ es) s → Sound qt password (e ∷ es) (step setup e s)
      by_event (connected c) h = new_connection-Sound _ c s h
      by_event (dropped c) h =
          if_both (Sound qt password _) _ _ _
            (evolve-Sound qt password h (
              disconnect-Evolves (policy qt password _) _ c s tt
                (user_left-Evolves setup (policy qt password _))))
            h
      by_event (line c text) h =
          if_both (Sound qt password _) _ _ _
            (handle_line-Kept qt (ricochet_hooks setup) (policy qt password _) (Sound qt password _)
              (ricochet_hooks-Lawful setup _) (Sound-Invariant qt password _) (λ d. tt) c text s h
              (Sound-Registers qt password es c text))
            h
      by_event (contacts_changed ks) h = record {
        password_kept = h.password_kept;
        shown = h.shown;
        members = h.members;
        calls = h.calls;
      }
      by_event (requests_changed rs) h = record {
        password_kept = h.password_kept;
        shown = h.shown;
        members = h.members;
        calls = h.calls;
      }
      by_event (contact_status_changed k status) h = evolve-Sound qt password h (
          on_contact_status_changed-Evolves setup (policy qt password _) (λ v. tt) k status s
            h.members)
      by_event (tor_running running) h =
          evolve-Sound qt password h
            (tor_running_changed-Evolves setup (policy qt password _) (λ v. tt) running s h.members)
      by_event (tor_control_status is_connected) h =
          evolve-Sound qt password h
            (on_tor_control_status_changed-Evolves setup (policy qt password _) is_connected s)
      by_event (message_from key is_outgoing text) h =
          evolve-Sound qt password h
            (forward_message-Evolves setup (policy qt password _) key is_outgoing text s)
      by_event (request_arrived r) h =
          evolve-Sound qt password h
            (request_added-Evolves setup (policy qt password _) (λ v. tt) r s)

  start-Sound : Sound qt password [] (start setup password)
  unfolding start
  start-Sound =
      let p = policy qt password [] in
      let name = setup.control_channel_name in
      evolve-Sound qt password
        (record { password_kept = refl; shown = tt; members = tt; calls = tt })
        (next p (get_channel-Evolves p name (fresh_server setup password))
          (add_member-Evolves p name ricochet_user (codes "@") _ tt))

  pub run-Sound : (es : List Event) → Sound qt password es (run setup password es)
  unfolding run
  run-Sound [] = start-Sound
  run-Sound (e ∷ es) = step-Sound es e _ (run-Sound es)

-- The server has a password that is not empty. After any history every member of a channel that is
-- a connection, logged in or not, has sent that password, a valid nickname and a valid user name;
-- and every call that the server has made is a reply, the end of a connection, a stop of Tor, a
-- message of the control user, a message to a contact from a connection that has sent these three,
-- or another order at a time when some connection had sent them.
pub members-orders_admitted :
    (setup : Setup) (password : Text) (es : List Event)
    → same password [] ≡ false
    → Guests (Member setup.qt password es) (run setup password es).channels
      × All (Allowed setup.qt password es) (run setup password es).calls
members-orders_admitted setup password es given =
    let g = run-Sound setup password given es in (g.members, g.calls)
