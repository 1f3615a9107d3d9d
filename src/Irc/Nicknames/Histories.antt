-- ===== src/Irc/Nicknames/Histories.antt =====
-- The nicknames of the clients behind any history (src/irc).
use ricochet_irc.Prelude.{
  ℕ, ◌≡◌, sym, ◌∙◌, ◌⊎◌, inl, inr, true, List, [], ◌∷◌, find, put, is_some, ◌==◌, All, if_both,
  arith, Bool-cases, codes,
}
use ricochet_irc.Connection.State.{Text}
use ricochet_irc.Irc.State.{UserRef, client, IrcConnection, IrcChannel, IrcServer, nick_of}
use ricochet_irc.Irc.Users.{Qt, new_connection, new_connection_object}
use ricochet_irc.Irc.Control.{Setup, start, fresh_server, ricochet_user}
use ricochet_irc.Irc.Commands.{ricochet_hooks}
use ricochet_irc.Irc.Events.{
  Event, connected, dropped, line, contacts_changed, requests_changed, contact_status_changed,
  tor_running, tor_control_status, message_from, request_arrived, step, run,
}
use ricochet_irc.Irc.Evolution.{Guests, is_listed, next, add_member-Evolves, get_channel-Evolves}
use ricochet_irc.Irc.Evolution.Relay.{disconnect-Evolves}
use ricochet_irc.Irc.Evolution.Control.{user_left-Evolves}
use ricochet_irc.Irc.Evolution.Commands.{
  forward_message-Evolves, on_tor_control_status_changed-Evolves,
}
use ricochet_irc.Irc.Evolution.Slots.{
  on_contact_status_changed-Evolves, tor_running_changed-Evolves, request_added-Evolves,
}
use ricochet_irc.Irc.Handling.Lines.{handle_line-Kept}
use ricochet_irc.Irc.Handling.Ricochet.{ricochet_hooks-Lawful}
use ricochet_irc.Irc.Nicknames.{
  anything, Distinct, evolve-Distinct, nick-put, Distinct-Invariant, Distinct-Registers,
}

any_member : (ms : List (UserRef × Text)) → All (λ (m : UserRef × Text). anything.Admits m.0) ms
any_member [] = tt
any_member (m ∷ ms) = (tt, any_member ms)

any-Guests : (chs : List IrcChannel) → Guests anything.Admits chs
any-Guests [] = tt
any-Guests (ch ∷ chs) = (any_member ch.members, any-Guests chs)

new_connection-Distinct :
    (qt : Qt) (c : ℕ) (s : IrcServer) → Distinct s → Distinct (new_connection qt c s)
unfolding new_connection
new_connection-Distinct qt c s h = if_both Distinct (is_some (find c s.connections)) _ _ h added
  where
    o : IrcConnection
    o = new_connection_object s.password (qt.host c)

    t : IrcServer
    t = record s { connections = put c o s.connections; clients = c ∷ s.clients }

    -- The new connection has no nickname, and the others have theirs.
    nick_in :
        (d : ℕ)
        → is_listed d t.clients ≡ true
        → (nick_of (client d) t ≡ [])
          ⊎ ((is_listed d s.clients ≡ true) × (nick_of (client d) t ≡ nick_of (client d) s))
    nick_in d l = elim (Bool-cases (c == d)) [
      | inl b ↦ inl (ground (arith, nick-put c d o s.connections))
      | inr b ↦ inr (ground (arith), ground (arith, nick-put c d o s.connections))
    ]

    added : Distinct t
    added a b la lb eq = elim (nick_in a la) [
      | inl k ↦ inl k
      | inr (ka, na) ↦ elim (nick_in b lb) [
        | inl k ↦ inl (eq ∙ k)
        | inr (kb, nb) ↦ elim (h a b ka kb (sym na ∙ eq ∙ nb)) [
          | inl k ↦ inl (na ∙ k)
          | inr k ↦ inr k
        ]
      ]
    ]

step-Distinct : (setup : Setup) (e : Event) (s : IrcServer) → Distinct s → Distinct (step setup e s)
unfolding step
step-Distinct setup (connected c) s h = new_connection-Distinct setup.qt c s h
step-Distinct setup (dropped c) s h =
    if_both Distinct _ _ _
      (evolve-Distinct s _ h
        (disconnect-Evolves anything _ c s tt (user_left-Evolves setup anything)))
      h
step-Distinct setup (line c text) s h =
    if_both Distinct _ _ _
      (handle_line-Kept setup.qt (ricochet_hooks setup) anything Distinct
        (ricochet_hooks-Lawful setup anything) Distinct-Invariant (λ d. tt) c text s h
        (λ m e. Distinct-Registers c m))
      h
step-Distinct setup (contacts_changed ks) s h = h
step-Distinct setup (requests_changed rs) s h = h
step-Distinct setup (contact_status_changed k status) s h =
    evolve-Distinct s _ h (
      on_contact_status_changed-Evolves setup anything (λ v. tt) k status s (any-Guests s.channels))
step-Distinct setup (tor_running running) s h =
    evolve-Distinct s _ h
      (tor_running_changed-Evolves setup anything (λ v. tt) running s (any-Guests s.channels))
step-Distinct setup (tor_control_status is_connected) s h =
    evolve-Distinct s _ h (on_tor_control_status_changed-Evolves setup anything is_connected s)
step-Distinct setup (message_from key is_outgoing text) s h =
    evolve-Distinct s _ h (forward_message-Evolves setup anything key is_outgoing text s)
step-Distinct setup (request_arrived r) s h =
    evolve-Distinct s _ h (request_added-Evolves setup anything (λ v. tt) r s)

start-Distinct : (setup : Setup) (password : Text) → Distinct (start setup password)
unfolding start
start-Distinct setup password =
    evolve-Distinct (fresh_server setup password) _ (λ c d lc ld eq. absurd (cc))
      (next anything
        (get_channel-Evolves anything setup.control_channel_name (fresh_server setup password))
        (add_member-Evolves anything setup.control_channel_name ricochet_user (codes "@") _ tt))

run-Distinct :
    (setup : Setup) (password : Text) (es : List Event) → Distinct (run setup password es)
unfolding run
run-Distinct setup password [] = start-Distinct setup password
run-Distinct setup password (e ∷ es) = step-Distinct setup e _ (run-Distinct setup password es)

-- After any history of the server, two of its clients that have the same nickname are one client,
-- unless the nickname is the empty one that every client begins with.
pub nicknames_distinct :
    (setup : Setup) (password : Text) (es : List Event) (c d : ℕ)
    → is_listed c (run setup password es).clients ≡ true
    → is_listed d (run setup password es).clients ≡ true
    → nick_of (client c) (run setup password es) ≡ nick_of (client d) (run setup password es)
    → (nick_of (client c) (run setup password es) ≡ []) ⊎ (c ≡ d)
nicknames_distinct setup password es = run-Distinct setup password es
