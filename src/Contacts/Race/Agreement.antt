-- ===== src/Contacts/Race/Agreement.antt =====
-- Which connection two contacts keep that connect to each other at the same time
-- (src/libtego/source/core/ContactUser.cpp).
use ricochet_irc.Prelude.{
  ℕ, ◌≤◌, ◌≡◌, ◌≢◌, ap, sym, ◌∙◌, Bool, true, false, not, if◌then◌else◌, ◌==◌, Bool-cases, inl, inr,
}
use ricochet_irc.Connection.State.{Conn}
use ricochet_irc.Connector.Status.{Connector}
use ricochet_irc.Contacts.User.{Contact, Held}
use ricochet_irc.Contacts.Assignment.{less, prefer_outbound, is_authenticating}
use ricochet_irc.Contacts.Order.{less-flip}
use ricochet_irc.Contacts.Race.Sides.{Settled, IsRacing, assign_both, swapped, in_time}
use ricochet_irc.Contacts.Race.Orders.{outbound_kept, inbound_kept}

-- Two peers that have each other as contacts, under different names, connect to each other at the same
-- time: each is offline for the other, has no connection to it and no request, and has an attempt.
-- Each gets an outbound connection, from its attempt, which is the inbound one of the other. Both are
-- connected and not assigned yet, and authenticated as the other, who knows the one that made it.
-- They reach either side in any order, the second while the first is at most 30 seconds old, and
-- the queued `onConnected` of the first runs before the second comes or not. A side that has the
-- name that prefers its outbound connection, and notices the inbound one first, had sent its
-- authentication then. Then both sides keep the same connection, the one whose server has the host
-- name that compares less. It stays connected, and each has closed the other one, or dropped the
-- attempt that was to bring it.
pub race-agrees :
    (send_request : Conn → Conn) (a b : Contact) (a_out a_inc b_out b_inc : Held)
    (a_attempt a_ready b_attempt b_ready : Connector) (a_first a_noticed b_first b_noticed : Bool)
    (a_age b_age : ℕ)
    → IsRacing a_attempt a_out a_inc a
    → IsRacing b_attempt b_out b_inc b
    → a_out.key ≡ b_inc.key
    → a_inc.key ≡ b_out.key
    → a.hostname ≡ b.identity_hostname
    → b.hostname ≡ a.identity_hostname
    → a.hostname ≢ a.identity_hostname
    → a_age ≤ 30
    → b_age ≤ 30
    → (a_first ≡ false → a_noticed ≡ true → prefer_outbound a ≡ true → is_authenticating a ≡ true)
    → (b_first ≡ false → b_noticed ≡ true → prefer_outbound b ≡ true → is_authenticating b ≡ true)
    → let out_is_kept = less a.hostname a.identity_hostname in
      let kept = if out_is_kept then a_out.key else a_inc.key in
      let dropped = if out_is_kept then a_inc.key else a_out.key in
      Settled kept dropped a_out.key a
        (assign_both send_request a_ready a_first a_noticed a_age a_out a_inc a)
      × Settled kept dropped b_out.key b
          (assign_both send_request b_ready b_first b_noticed b_age b_out b_inc b)
      × ((kept == dropped) ≡ false)
race-agrees send a b a_out a_inc b_out b_inc ka la kb lb a_first an b_first bn a_age b_age ra rb ab
      ba na nb differ ya yb sa sb =
    let flipped : prefer_outbound b ≡ not (prefer_outbound a) =
      rw (nb, sym na) (less-flip a.hostname a.identity_hostname differ) in
    let ta = in_time a_age ya in
    let tb = in_time b_age yb in
    elim (Bool-cases (prefer_outbound a)) [
      | inl e ↦ rw e (
        outbound_kept send ka la a_age a_out a_inc a ra ta a_first an e (λ f n. sa f n e),
        rw (ab, ba)
            (inbound_kept send kb lb b_age b_out b_inc b rb tb b_first bn (flipped ∙ ap not e)),
        ra.others,
      )
      | inr e ↦ rw e (
        inbound_kept send ka la a_age a_out a_inc a ra ta a_first an e,
        rw (ab, ba)
            (outbound_kept send kb lb b_age b_out b_inc b rb tb b_first bn (flipped ∙ ap not e)
              (λ f n. sb f n (flipped ∙ ap not e))),
        swapped a_out.key a_inc.key ra.others,
      )
    ]
