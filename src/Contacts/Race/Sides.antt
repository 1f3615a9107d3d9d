-- ===== src/Contacts/Race/Sides.antt =====
-- Which connection one side keeps when two contacts connect to each other at the same time
-- (src/libtego/source/core/ContactUser.cpp).
use ricochet_irc.Prelude.{
  ℕ, ◌≤◌, ◌≡◌, ◌⊎◌, refl, ap, ◌∙◌, Bool, true, false, List, ◌∷◌, Option, none, some, if◌then◌else◌,
  ltb, ◌==◌, arith, inl,
}
use ricochet_irc.Connection.State.{Conn, is_connected}
use ricochet_irc.Connection.Channels.{close}
use ricochet_irc.Connector.Status.{Connector, is_same}
use ricochet_irc.Connector.Attempt.{take_connection}
use ricochet_irc.Contacts.User.{
  Contact, Held, UserStatus, ContactSignal, online, contact_connected, status_changed, on_connected,
  is_live, update_status, new_status, update_outgoing_socket,
}
use ricochet_irc.Contacts.Assignment.{
  is_outbound, prefer_outbound, resolve, assign_connection, on_ready,
}
use ricochet_irc.Contacts.Race.{
  IsUsable, IsIdle, IsRivalled, assigned, set_purpose-live, set_purpose-side, close-not_live,
  assign-usable, clear_outdated-rival, resolve-wins, resolve-loses,
}

-- The contact has kept one connection, which is connected, and let go of the other, which is closed, or
-- went with the attempt, `attempted`, that it came from.
pub record Settled (kept dropped attempted : ℕ) (before after : Contact) : Type 0 where
  pub keeps :
      (h : Held) × (after.connection ≡ some h) × (h.key ≡ kept) × (is_connected h.conn ≡ true)
  pub drops :
      ((h : Held) × (after.let_go ≡ h ∷ before.let_go)
        × (h.key ≡ dropped)
        × (is_connected h.conn ≡ false))
      ⊎ ((dropped ≡ attempted) × (after.outgoing_socket ≡ none) × (after.let_go ≡ before.let_go))

-- A contact with one of the connections, at any time behind its assignment.
abbrev pub met : Held → Option Connector → UserStatus → List ContactSignal → Contact → Contact
met h socket status signals c = record c {
  connection = some (assigned h);
  outgoing_socket = socket;
  status = status;
  signals = signals;
}

module _ (age : ℕ) (old new : Held) (c : Contact) (idle : IsIdle c)
    (old_usable : IsUsable c.hostname old) (new_usable : IsUsable c.hostname new)
    (young : ltb 30 age ≡ false) (opposite : is_same (is_outbound new) (is_outbound old) ≡ false)
    (others : (old.key == new.key) ≡ false) (attempted : ℕ) (socket : Option Connector)
    (status : UserStatus) (signals : List ContactSignal) where
  abbrev now : Contact
  now = met old socket status signals c

  rivalled : IsRivalled (assigned old) new now
  rivalled = record {
    has = refl;
    no_request = idle.no_request;
    live = set_purpose-live old.conn old_usable.connects;
    opposite = rw (set_purpose-side old.conn) opposite;
    others = others;
  }

  second-resolves : assign_connection age new now ≡ resolve new now
  second-resolves =
      assign-usable age new now idle.no_request new_usable others
      ∙ ap (resolve new) (clear_outdated-rival age (assigned old) new now rivalled young)

  pub second-wins :
      is_same (is_outbound new) (prefer_outbound c) ≡ true
      → Settled new.key old.key attempted c (assign_connection age new now)
  second-wins wins =
      rw (second-resolves ∙ resolve-wins (assigned old) new now rivalled new_usable wins) (record {
        keeps = (assigned new, refl, refl, set_purpose-live new.conn new_usable.connects);
        drops = inl (
          record old { conn = close (assigned old).conn },
          refl,
          refl,
          close-not_live (assigned old).conn,
        );
      })

  pub second-loses :
      is_same (is_outbound new) (prefer_outbound c) ≡ false
      → Settled old.key new.key attempted c (assign_connection age new now)
  second-loses loses =
      rw (second-resolves ∙ resolve-loses (assigned old) new now rivalled loses) (record {
        keeps = (assigned old, refl, refl, set_purpose-live old.conn old_usable.connects);
        drops = inl (record new { conn = close new.conn }, refl, refl, close-not_live new.conn);
      })

-- What one side knows of the race. Its attempt has `attempt` as its state.
pub record IsRacing (attempt : Connector) (out inc : Held) (c : Contact) : Type 0 where
  pub idle : IsIdle c
  pub attempts : c.outgoing_socket ≡ some attempt
  pub out_usable : IsUsable c.hostname out
  pub inc_usable : IsUsable c.hostname inc
  pub goes_out : is_outbound out ≡ true
  pub comes_in : is_outbound inc ≡ false
  pub others : (out.key == inc.key) ≡ false

-- The queued slot runs, or not yet.
abbrev pub notice : (Conn → Conn) → Bool → Contact → Contact
notice send_request noticed c = if noticed then on_connected send_request c else c

-- The attempt, if it is still there, has moved on to this state.
abbrev pub moved_on : Connector → Contact → Contact
moved_on attempt c = record c {
  outgoing_socket = elim c.outgoing_socket [ none ↦ none | some _ ↦ some attempt ];
}

-- Both connections reach the contact, in either order, the outbound one by the attempt while there is
-- one, in the state `ready` then; is the first noticed before the second comes?
unfoldable pub assign_both :
    (Conn → Conn) → Connector → Bool → Bool → ℕ → Held → Held → Contact → Contact
assign_both send_request ready outbound_first noticed age out inc c =
    if outbound_first
    then assign_connection age inc
        (notice send_request noticed (on_ready age out (moved_on ready c)))
    else on_ready age out
        (moved_on ready (notice send_request noticed (assign_connection age inc c)))

pub swapped : (m n : ℕ) → (m == n) ≡ false → (n == m) ≡ false
swapped m n e = ground arith

pub in_time : (n : ℕ) → n ≤ 30 → ltb 30 n ≡ false
in_time n h = ground arith

module _ (send_request : Conn → Conn) where
  -- The status of a contact without a request changes to online, and its attempt is dropped.
  pub on_connected-met :
      (h : Held) (socket : Option Connector) (c : Contact)
      → IsIdle c
      → IsUsable c.hostname h
      → on_connected send_request (met h socket c.status c.signals c)
        ≡ met h none online (contact_connected ∷ status_changed online ∷ c.signals) c
  unfolding on_connected update_status new_status update_outgoing_socket
  on_connected-met h socket c i u =
      simp (i.no_request, i.is_offline, set_purpose-live h.conn u.connects)

  pub on_connected-alone : (c : Contact) → c.connection ≡ none → on_connected send_request c ≡ c
  unfolding on_connected
  on_connected-alone c e = let dead : is_live c ≡ false = rw e refl in rw (dead, on_connected) refl

  pub notice-alone :
      (noticed : Bool) (c : Contact) → c.connection ≡ none → notice send_request noticed c ≡ c
  notice-alone true c e = on_connected-alone c e
  notice-alone false c e = refl

pub on_ready-some :
    (age : ℕ) (h : Held) (attempt ready : Connector) (c : Contact)
    → c.outgoing_socket ≡ some attempt
    → on_ready age h (moved_on ready c)
      ≡ assign_connection age h (record c { outgoing_socket = some (take_connection ready).0 })
unfolding on_ready
on_ready-some age h attempt ready c e =
    ap
      (λ o. on_ready age h (record c {
        outgoing_socket = elim o as (λ _. Option Connector) [ none ↦ none | some _ ↦ some ready ];
      }))
      e
