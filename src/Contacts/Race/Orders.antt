-- ===== src/Contacts/Race/Orders.antt =====
-- Which connection one side of a race keeps, in each order
-- (src/libtego/source/core/ContactUser.cpp).
use ricochet_irc.Prelude.{
  ℕ, ◌≡◌, refl, ap, ◌∙◌, Bool, true, false, not, ◌&&◌, List, ◌∷◌, Option, none, some, ltb, arith,
  Bool-cases, inl, inr,
}
use ricochet_irc.Connection.State.{Conn}
use ricochet_irc.Connection.Channels.{close}
use ricochet_irc.Connector.Status.{Connector, is_same}
use ricochet_irc.Connector.Attempt.{take_connection}
use ricochet_irc.Contacts.User.{
  Contact, Held, UserStatus, ContactSignal, online, contact_connected, status_changed, on_connected,
}
use ricochet_irc.Contacts.Assignment.{
  is_outbound, prefer_outbound, is_authenticating, assign_connection, on_ready, close_held,
}
use ricochet_irc.Contacts.Race.{
  IsIdle, IsAdmitted, assigned, set_purpose-live, close-not_live, assign-first, assign-held_back,
}
use ricochet_irc.Contacts.Race.Sides.{
  IsRacing, Settled, met, notice, moved_on, assign_both, swapped, second-wins, second-loses,
  on_connected-met, notice-alone, on_ready-some,
}

module _ (send_request : Conn → Conn) (attempt ready : Connector) (age : ℕ) (out inc : Held)
    (c : Contact) (r : IsRacing attempt out inc c) (young : ltb 30 age ≡ false) where
  abbrev ready_socket : Option Connector
  ready_socket = some (take_connection ready).0

  with_ready : IsIdle (record c { outgoing_socket = ready_socket })
  with_ready = record {
    no_connection = r.idle.no_connection;
    no_request = r.idle.no_request;
    is_offline = r.idle.is_offline;
  }

  opposite : is_same (is_outbound inc) (is_outbound out) ≡ false
  opposite = rw (r.comes_in, r.goes_out) refl

  opposite_out : is_same (is_outbound out) (is_outbound inc) ≡ false
  opposite_out = rw (r.goes_out, r.comes_in) refl

  out_first : on_ready age out (moved_on ready c) ≡ met out ready_socket c.status c.signals c
  out_first =
      on_ready-some age out attempt ready c r.attempts
      ∙ assign-first age out (record c { outgoing_socket = ready_socket }) with_ready r.out_usable
          (rw r.goes_out refl)

  out_noticed :
      (noticed : Bool)
      → (socket : Option Connector) × (status : UserStatus) × (signals : List ContactSignal)
        × (notice send_request noticed (on_ready age out (moved_on ready c))
            ≡ met out socket status signals c)
  out_noticed true = (
    _,
    _,
    _,
    ap (on_connected send_request) out_first
        ∙ on_connected-met send_request out ready_socket c r.idle r.out_usable,
  )
  out_noticed false = (_, _, _, out_first)

  inc_first :
      IsAdmitted inc c
      → assign_connection age inc c ≡ met inc c.outgoing_socket c.status c.signals c
  inc_first q = assign-first age inc c r.idle r.inc_usable q

  out_second :
      IsAdmitted inc c
      → on_ready age out (moved_on ready (assign_connection age inc c))
        ≡ assign_connection age out (met inc ready_socket c.status c.signals c)
  out_second q =
      ap (λ d. on_ready age out (moved_on ready d)) (inc_first q)
      ∙ on_ready-some age out attempt ready (met inc c.outgoing_socket c.status c.signals c)
          r.attempts

  -- The inbound connection is held back, and the attempt brings the outbound one.
  out_alone :
      (noticed : Bool)
      → is_authenticating c ≡ true
      → prefer_outbound c ≡ true
      → on_ready age out
          (moved_on ready (notice send_request noticed (assign_connection age inc c)))
        ≡ met out ready_socket c.status c.signals (close_held inc c)
  out_alone noticed a p =
      ap (λ d. on_ready age out (moved_on ready (notice send_request noticed d)))
        (assign-held_back age inc c r.idle r.inc_usable r.comes_in a p)
      ∙ ap (λ d. on_ready age out (moved_on ready d))
          (notice-alone send_request noticed (close_held inc c) r.idle.no_connection)
      ∙ on_ready-some age out attempt ready (close_held inc c) r.attempts
      ∙ assign-first age out (record (close_held inc c) { outgoing_socket = ready_socket })
          (record {
            no_connection = r.idle.no_connection;
            no_request = r.idle.no_request;
            is_offline = r.idle.is_offline;
          })
          r.out_usable (rw r.goes_out refl)

  out_gone :
      IsAdmitted inc c
      → on_ready age out (moved_on ready (on_connected send_request (assign_connection age inc c)))
        ≡ met inc none online (contact_connected ∷ status_changed online ∷ c.signals) c
  unfolding on_ready
  out_gone q =
      ap (λ d. on_ready age out (moved_on ready (on_connected send_request d))) (inc_first q)
      ∙ ap (λ d. on_ready age out (moved_on ready d))
          (on_connected-met send_request inc c.outgoing_socket c r.idle r.inc_usable)

  pub outbound_kept :
      (outbound_first noticed : Bool)
      → prefer_outbound c ≡ true
      → (outbound_first ≡ false → noticed ≡ true → is_authenticating c ≡ true)
      → Settled out.key inc.key out.key c
          (assign_both send_request ready outbound_first noticed age out inc c)
  unfolding assign_both
  outbound_kept true noticed e sent =
      let (socket, status, signals, first) = out_noticed noticed in
      rw (ap (assign_connection age inc) first) (
        second-loses age out inc c r.idle r.out_usable r.inc_usable young opposite r.others out.key
          socket status signals (rw (r.comes_in, e) refl))
  outbound_kept false noticed e sent = elim (Bool-cases (is_authenticating c)) [
    | inl a ↦ rw (out_alone noticed a e) (record {
      keeps = (assigned out, refl, refl, set_purpose-live out.conn r.out_usable.connects);
      drops = inl (record inc { conn = close inc.conn }, refl, refl, close-not_live inc.conn);
    })
    | inr a ↦ late noticed (λ n. sent refl n) a
  ]
    where
      late :
          (noticed : Bool)
          → (noticed ≡ true → is_authenticating c ≡ true)
          → is_authenticating c ≡ false
          → Settled out.key inc.key out.key c (
              on_ready age out
                (moved_on ready (notice send_request noticed (assign_connection age inc c))))
      late true n a = let y : is_authenticating c ≡ true = n refl in absurd (cc)
      late false n a = rw (out_second (rw (r.comes_in, a) refl)) (
          second-wins age inc out c r.idle r.inc_usable r.out_usable young opposite_out
            (swapped out.key inc.key r.others) out.key ready_socket c.status c.signals
            (rw (r.goes_out, e) refl))

  admitted : prefer_outbound c ≡ false → IsAdmitted inc c
  admitted e = refused (is_outbound inc) (is_authenticating c) (prefer_outbound c) e
    where
      refused : (o a p : Bool) → p ≡ false → (not o && (a && p)) ≡ false
      refused o a p e = ground arith

  pub inbound_kept :
      (outbound_first noticed : Bool)
      → prefer_outbound c ≡ false
      → Settled inc.key out.key out.key c
          (assign_both send_request ready outbound_first noticed age out inc c)
  unfolding assign_both
  inbound_kept true noticed e =
      let (socket, status, signals, first) = out_noticed noticed in
      rw (ap (assign_connection age inc) first) (
        second-wins age out inc c r.idle r.out_usable r.inc_usable young opposite r.others out.key
          socket status signals (rw (r.comes_in, e) refl))
  inbound_kept false true e = rw (out_gone (admitted e)) (record {
    keeps = (assigned inc, refl, refl, set_purpose-live inc.conn r.inc_usable.connects);
    drops = inr (refl, refl, refl);
  })
  inbound_kept false false e = rw (out_second (admitted e)) (
      second-loses age inc out c r.idle r.inc_usable r.out_usable young opposite_out
        (swapped out.key inc.key r.others) out.key ready_socket c.status c.signals
        (rw (r.goes_out, e) refl))
