-- ===== src/Contacts/Holding/Assigning.antt =====
-- A contact that takes a new connection keeps one that fits
-- (src/libtego/source/core/ContactUser.cpp).
use ricochet_irc.Prelude.{
  ℕ, ◌≡◌, refl, Bool, true, false, not, ◌&&◌, ◌||◌, some, if◌then◌else◌, ltb, arith, if_both,
  if_cases,
}
use ricochet_irc.Connection.State.{
  Text, Conn, is_connected, is_purpose, known_contact, outbound_request, Purpose, unknown,
  inbound_request, set_purpose, purpose_allowed, has_authenticated_as, hidden_service_auth,
}
use ricochet_irc.Connector.Status.{is_same}
use ricochet_irc.Contacts.User.{Contact, Held, has_connection, has_request, accept_request}
use ricochet_irc.Contacts.Assignment.{
  is_outbound, prefer_outbound, close_held, clear_connection, connection_is, clear_if,
  is_authenticating, attach, assign_with, clear_outdated, resolve,
}
use ricochet_irc.Contacts.Holding.{
  IsFitting, filled, accept_request-IsFitting, clear_connection-IsFitting,
}

is_purpose→eq : (a b : Purpose) → is_purpose a b ≡ true → a ≡ b
is_purpose→eq unknown unknown e = refl
is_purpose→eq known_contact known_contact e = refl
is_purpose→eq outbound_request outbound_request e = refl
is_purpose→eq inbound_request inbound_request e = refl
is_purpose→eq _ _ e = absurd (cc)

module _ (name : Text) where
  clear_if-IsFitting : (b : Bool) (c : Contact) → IsFitting name c → IsFitting name (clear_if b c)
  clear_if-IsFitting b c f =
      if_both (IsFitting name) b (clear_connection c) c (clear_connection-IsFitting name c f) f

  pub clear_outdated-IsFitting :
      (age : ℕ) (new : Held) (c : Contact)
      → IsFitting name c
      → IsFitting name (clear_outdated age new c)
  unfolding clear_outdated
  clear_outdated-IsFitting age new c f =
      let dead = connection_is (λ h. not (is_connected h.conn)) c in
      let c1 = clear_if dead c in
      let alike = connection_is (λ h. is_same (is_outbound new) (is_outbound h)) c1 in
      let c2 = clear_if alike c1 in
      clear_if-IsFitting (connection_is (λ h. ltb 30 age) c2) c2
        (clear_if-IsFitting alike c1 (clear_if-IsFitting dead c f))

  -- What a connection gets is what was asked for.
  set_purpose-purpose :
      (p : Purpose) (conn : Conn)
      → (set_purpose p conn).1 ≡ true
      → (is_purpose p known_contact || is_purpose p outbound_request) ≡ true
      → (is_purpose (set_purpose p conn).0.purpose known_contact
          || is_purpose (set_purpose p conn).0.purpose outbound_request)
        ≡ true
  unfolding set_purpose
  set_purpose-purpose p conn e ok =
      if_cases
        (λ (r : Conn × Bool).
          r.1 ≡ true
          → (is_purpose r.0.purpose known_contact || is_purpose r.0.purpose outbound_request)
            ≡ true)
        (is_purpose conn.purpose p) (conn, true) _
        (λ same _. rw (is_purpose→eq conn.purpose p same) ok)
        (λ _.
          if_cases
            (λ (r : Conn × Bool).
              r.1 ≡ true
              → (is_purpose r.0.purpose known_contact || is_purpose r.0.purpose outbound_request)
                ≡ true)
            (purpose_allowed p conn) _ (conn, false) (λ _ _. ok) (λ _ no. absurd (cc)))
        e

  set_purpose-service :
      (p : Purpose) (conn : Conn) → (set_purpose p conn).0.hidden_service ≡ conn.hidden_service
  unfolding set_purpose
  set_purpose-service p conn = ground arith

  assign_with-IsFitting :
      (p : Purpose) (new : Held) (c : Contact)
      → (is_purpose p known_contact || is_purpose p outbound_request) ≡ true
      → has_authenticated_as hidden_service_auth name new.conn ≡ true
      → IsFitting name c
      → IsFitting name (assign_with p new c)
  unfolding has_authenticated_as
  assign_with-IsFitting p new c ok names f =
      let conn' = (set_purpose p new.conn).0 in
      if_cases (IsFitting name) (set_purpose p new.conn).1
        (record c { connection = some (record new { conn = conn' }) })
        (close_held (record new { conn = conn' }) c)
        (λ e.
          filled name (record new { conn = conn' }) c _ refl refl
            (record {
              names = rw (set_purpose-service p new.conn) names;
              serves = set_purpose-purpose p new.conn e ok;
            })
            f)
        (λ _. record { named = f.named; fits = f.fits })

  attach-IsFitting :
      (new : Held) (c : Contact)
      → has_authenticated_as hidden_service_auth name new.conn ≡ true
      → IsFitting name c
      → IsFitting name (attach new c)
  unfolding attach
  attach-IsFitting new c names f =
      let c' = if has_request c then accept_request c else c in
      if_both (IsFitting name) (has_request c && is_outbound new)
        (assign_with outbound_request new c) (assign_with known_contact new c')
        (assign_with-IsFitting outbound_request new c refl names f)
        (assign_with-IsFitting known_contact new c' refl names (
          if_both (IsFitting name) (has_request c) (accept_request c) c
            (accept_request-IsFitting name c f) f))

  pub closed_new : (new : Held) (c : Contact) → IsFitting name c → IsFitting name (close_held new c)
  closed_new new c f = record { named = f.named; fits = f.fits }

  pub resolve-IsFitting :
      (new : Held) (c : Contact)
      → has_authenticated_as hidden_service_auth name new.conn ≡ true
      → IsFitting name c
      → IsFitting name (resolve new c)
  unfolding resolve
  resolve-IsFitting new c names f =
      let c' = clear_connection c in
      let f' = clear_connection-IsFitting name c f in
      if_both (IsFitting name)
        (has_connection c && not (is_same (is_outbound new) (prefer_outbound c))) (close_held new c)
        _ (closed_new new c f)
        (if_both (IsFitting name)
          (not (is_outbound new) && (is_authenticating c' && prefer_outbound c'))
          (close_held new c') _ (closed_new new c' f')
          (if_both (IsFitting name) (has_connection c') (close_held new c') (attach new c')
            (closed_new new c' f') (attach-IsFitting new c' names f')))
