-- ===== src/Contacts/Race.antt =====
-- Two contacts that connect to each other at the same time
-- (src/libtego/source/core/ContactUser.cpp).
pub mod Sides
pub mod Orders
pub mod Agreement
use ricochet_irc.Prelude.{
  ℕ, ◌+◌, ◌≤◌, ◌≡◌, ◌≢◌, refl, ap, sym, ◌∙◌, Bool, true, false, not, ◌&&◌, ◌||◌, List, [], ◌∷◌,
  Option, none, some, is_some, if◌then◌else◌, ltb, ◌==◌, arith, Bool-cases, inl, inr,
}
use ricochet_irc.Connection.State.{
  Text, Conn, is_client, is_connected, is_purpose, known_contact, set_purpose, purpose_allowed,
  has_authenticated, has_authenticated_as, matches_identity, identity_for, hidden_service_auth,
  known_to_peer,
}
use ricochet_irc.Connection.Channels.{close}
use ricochet_irc.Connector.Status.{is_same}
use ricochet_irc.Contacts.User.{Contact, Held, has_connection, has_request, is_live, offline}
use ricochet_irc.Contacts.Assignment.{
  less, is_outbound, prefer_outbound, close_held, clear_connection, connection_is, clear_if,
  is_authenticating, attach, clear_outdated, resolve, assign_connection,
}
use ricochet_irc.Contacts.Order.{less-flip}

-- A connection that authenticated as the contact, and whose peer knows us if we made it.
pub record IsUsable (hostname : Text) (h : Held) : Type 0 where
  pub connects : is_connected h.conn ≡ true
  pub names : has_authenticated_as hidden_service_auth hostname h.conn ≡ true
  pub unassigned : is_purpose h.conn.purpose known_contact ≡ false
  pub known : is_outbound h ≡ true → has_authenticated known_to_peer h.conn ≡ true

-- The connection as the contact keeps it.
abbrev pub assigned : Held → Held
assigned h = record h { conn = (set_purpose known_contact h.conn).0 }

matches-is_some :
    (name : Text) (o : Option Text) → matches_identity name o ≡ true → is_some o ≡ true
unfolding matches_identity
matches-is_some [] o e = absurd (cc)
matches-is_some (x ∷ xs) none e = absurd (cc)
matches-is_some (x ∷ xs) (some n) e = refl

named-allowed :
    (name : Text) (c : Conn)
    → has_authenticated_as hidden_service_auth name c ≡ true
    → purpose_allowed known_contact c ≡ true
unfolding has_authenticated_as purpose_allowed has_authenticated
named-allowed name c e = matches-is_some name c.hidden_service e

set_purpose-known :
    (c : Conn) → purpose_allowed known_contact c ≡ true → (set_purpose known_contact c).1 ≡ true
unfolding set_purpose
set_purpose-known c e = ground arith

pub set_purpose-live :
    (c : Conn) → is_connected c ≡ true → is_connected (set_purpose known_contact c).0 ≡ true
unfolding set_purpose
set_purpose-live c e = ground arith

pub set_purpose-side : (c : Conn) → (set_purpose known_contact c).0.side ≡ c.side
unfolding set_purpose
set_purpose-side c = ground arith

pub close-not_live : (c : Conn) → is_connected (close c) ≡ false
unfolding close
close-not_live c = ground arith

attach-usable :
    (h : Held) (c : Contact)
    → c.request ≡ none
    → IsUsable c.hostname h
    → attach h c ≡ record c { connection = some (assigned h) }
unfolding attach
attach-usable h c e u =
    let s : (set_purpose known_contact h.conn).1 ≡ true =
      set_purpose-known h.conn (named-allowed c.hostname h.conn u.names) in
    simp (e, s)

pub assign-usable :
    (age : ℕ) (h : Held) (c : Contact)
    → c.request ≡ none
    → IsUsable c.hostname h
    → (elim c.connection [ none ↦ false | some o ↦ o.key == h.key ]) ≡ false
    → assign_connection age h c ≡ resolve h (clear_outdated age h c)
unfolding assign_connection
assign-usable age h c e u other = ground (arith, e, u, other)

-- A contact without a connection and a request, whose attempt has not sent its authentication.
pub record IsIdle (c : Contact) : Type 0 where
  pub no_connection : c.connection ≡ none
  pub no_request : c.request ≡ none
  pub is_offline : c.status ≡ offline

clear-none : (c : Contact) → c.connection ≡ none → clear_connection c ≡ c
unfolding clear_connection
clear-none c e =
    ap
      (λ o. elim o as (λ _. Contact) [
        | none ↦ c
        | some h ↦ close_held h (record c { connection = none })
      ])
      e

clear-some :
    (h : Held) (c : Contact)
    → c.connection ≡ some h
    → clear_connection c ≡ close_held h (record c { connection = none })
unfolding clear_connection
clear-some h c e =
    ap
      (λ o. elim o as (λ _. Contact) [
        | none ↦ c
        | some h' ↦ close_held h' (record c { connection = none })
      ])
      e

clear_if-false : (b : Bool) (c : Contact) → b ≡ false → clear_if b c ≡ c
clear_if-false b c e = rw e refl

is-none : (test : Held → Bool) (c : Contact) → c.connection ≡ none → connection_is test c ≡ false
is-none test c e = rw e refl

is-some :
    (test : Held → Bool) (h : Held) (c : Contact)
    → c.connection ≡ some h
    → connection_is test c ≡ test h
is-some test h c e = rw e refl

clear_outdated-keeps :
    (age : ℕ) (new : Held) (c : Contact)
    → connection_is (λ h. not (is_connected h.conn)) c ≡ false
    → connection_is (λ h. is_same (is_outbound new) (is_outbound h)) c ≡ false
    → connection_is (λ h. ltb 30 age) c ≡ false
    → clear_outdated age new c ≡ c
unfolding clear_outdated
clear_outdated-keeps age new c a b d =
    let step1 = clear_if-false (connection_is (λ h. not (is_connected h.conn)) c) c a in
    let step2 =
      clear_if-false (connection_is (λ h. is_same (is_outbound new) (is_outbound h)) c) c b in
    ap
      (λ c1.
        let c2 = clear_if (connection_is (λ h. is_same (is_outbound new) (is_outbound h)) c1) c1 in
        clear_if (connection_is (λ h. ltb 30 age) c2) c2)
      step1
    ∙ ap (λ c2. clear_if (connection_is (λ h. ltb 30 age) c2) c2) step2
    ∙ clear_if-false (connection_is (λ h. ltb 30 age) c) c d

clear_outdated-none :
    (age : ℕ) (h : Held) (c : Contact) → c.connection ≡ none → clear_outdated age h c ≡ c
clear_outdated-none age h c e =
    clear_outdated-keeps age h c (is-none _ c e) (is-none _ c e) (is-none _ c e)

-- An attempt that has sent its authentication does not hold the new connection back.
abbrev pub IsAdmitted : Held → Contact → Type 0
IsAdmitted new c = (not (is_outbound new) && (is_authenticating c && prefer_outbound c)) ≡ false

-- No connection is left to compare with.
resolve-attach :
    (new : Held) (c c' : Contact)
    → (has_connection c && not (is_same (is_outbound new) (prefer_outbound c))) ≡ false
    → clear_connection c ≡ c'
    → IsAdmitted new c'
    → has_connection c' ≡ false
    → resolve new c ≡ attach new c'
unfolding resolve
resolve-attach new c c' a e q n = rw (a, e) (ground (arith, q, n))

resolve-none :
    (h : Held) (c : Contact)
    → IsIdle c
    → IsUsable c.hostname h
    → IsAdmitted h c
    → resolve h c ≡ record c { connection = some (assigned h) }
resolve-none h c i u q =
    let gone : has_connection c ≡ false = ap is_some i.no_connection in
    resolve-attach h c c (ground (arith, gone)) (clear-none c i.no_connection) q gone
    ∙ attach-usable h c i.no_request u

pub assign-first :
    (age : ℕ) (h : Held) (c : Contact)
    → IsIdle c
    → IsUsable c.hostname h
    → IsAdmitted h c
    → assign_connection age h c ≡ record c { connection = some (assigned h) }
assign-first age h c i u q =
    assign-usable age h c i.no_request u (simp i.no_connection)
    ∙ ap (resolve h) (clear_outdated-none age h c i.no_connection)
    ∙ resolve-none h c i u q

-- An inbound connection that an attempt holds back.
pub assign-held_back :
    (age : ℕ) (h : Held) (c : Contact)
    → IsIdle c
    → IsUsable c.hostname h
    → is_outbound h ≡ false
    → is_authenticating c ≡ true
    → prefer_outbound c ≡ true
    → assign_connection age h c ≡ close_held h c
unfolding resolve
assign-held_back age h c i u o a p =
    let gone : has_connection c ≡ false = ap is_some i.no_connection in
    assign-usable age h c i.no_request u (simp i.no_connection)
    ∙ ap (resolve h) (clear_outdated-none age h c i.no_connection)
    ∙ rw (gone, clear-none c i.no_connection) (rw (o, a, p) refl)

-- The contact has a young connection, which goes the other way than the new one.
pub record IsRivalled (old new : Held) (c : Contact) : Type 0 where
  pub has : c.connection ≡ some old
  pub no_request : c.request ≡ none
  pub live : is_connected old.conn ≡ true
  pub opposite : is_same (is_outbound new) (is_outbound old) ≡ false
  pub others : (old.key == new.key) ≡ false

pub clear_outdated-rival :
    (age : ℕ) (old new : Held) (c : Contact)
    → IsRivalled old new c
    → ltb 30 age ≡ false
    → clear_outdated age new c ≡ c
clear_outdated-rival age old new c r young =
    clear_outdated-keeps age new c
      (is-some (λ h. not (is_connected h.conn)) old c r.has ∙ ap not r.live)
      (is-some (λ h. is_same (is_outbound new) (is_outbound h)) old c r.has ∙ r.opposite)
      (is-some (λ h. ltb 30 age) old c r.has ∙ young)

winner : (o a p : Bool) → is_same o p ≡ true → (not o && (a && p)) ≡ false
winner o a p e = ground arith

pub resolve-wins :
    (old new : Held) (c : Contact)
    → IsRivalled old new c
    → IsUsable c.hostname new
    → is_same (is_outbound new) (prefer_outbound c) ≡ true
    → resolve new c ≡ record (close_held old c) { connection = some (assigned new) }
resolve-wins old new c r u wins =
    let c' = close_held old (record c { connection = none }) in
    resolve-attach new c c' (ground (arith, wins)) (clear-some old c r.has)
      (winner (is_outbound new) (is_authenticating c) (prefer_outbound c) wins) refl
    ∙ attach-usable new c' r.no_request u

pub resolve-loses :
    (old new : Held) (c : Contact)
    → IsRivalled old new c
    → is_same (is_outbound new) (prefer_outbound c) ≡ false
    → resolve new c ≡ close_held new c
unfolding resolve
resolve-loses old new c r loses = simp (r.has, loses)
