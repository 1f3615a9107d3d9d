-- ===== src/Contacts/Holding/Histories.antt =====
-- The connection of a contact behind any history (src/libtego/source/core/ContactUser.cpp).
use ricochet_irc.Prelude.{
  ℕ, ◌≡◌, refl, sym, ap, ◌∙◌, Bool, true, false, not, ◌&&◌, ◌||◌, List, [], ◌∷◌, none, some,
  if◌then◌else◌, ◌==◌, arith, if_both, if_cases, option_both,
}
use ricochet_irc.Connection.State.{
  Text, Conn, is_connected, is_purpose, known_contact, has_authenticated, has_authenticated_as,
  hidden_service_auth, known_to_peer,
}
use ricochet_irc.Connection.Channels.{close}
use ricochet_irc.Contacts.User.{
  Contact, Held, has_request, is_live, update_status, update_outgoing_socket, accept_request,
  on_disconnected, pending, UserStatus, signal, contact_disconnected, contact_connected,
  request_pending, same_status, is_contact_online, with_connection, on_connected,
}
use ricochet_irc.Contacts.Assignment.{
  is_outbound, close_held, connection_is, clear_outdated, resolve, assign_connection, on_ready,
  new_contact, Event, assigns, readies, evolves, notices, disconnects, requests, accepts, step, run,
}
use ricochet_irc.Contacts.Unchanged.{Same, close-Same}
use ricochet_irc.Contacts.Holding.{
  IsFitting, Fits, Fits-Same, held-Fits, filled, update_outgoing_socket-IsFitting,
  update_status-IsFitting, accept_request-IsFitting,
}
use ricochet_irc.Connector.Attempt.{take_connection}
use ricochet_irc.Contacts.Holding.Assigning.{
  resolve-IsFitting, closed_new, clear_outdated-IsFitting,
}

-- A connection that moves on by itself, or on which a request is sent, keeps its authentication and its
-- purpose.
abbrev pub IsPossible : Event → Type 0
IsPossible (evolves f) = (conn : Conn) → Same conn (f conn)
IsPossible (notices f) = (conn : Conn) → Same conn (f conn)
IsPossible _ = Unit {0}

abbrev pub ArePossible : List Event → Type 0
ArePossible [] = Unit {0}
ArePossible (e ∷ es) = IsPossible e × ArePossible es

module _ (name : Text) where
  assign_connection-IsFitting :
      (age : ℕ) (new : Held) (c : Contact)
      → IsFitting name c
      → IsFitting name (assign_connection age new c)
  unfolding assign_connection
  assign_connection-IsFitting age new c f =
      let known = has_authenticated known_to_peer new.conn in
      let accepts = is_outbound new && (has_request c && known) in
      let c' = if accepts then accept_request c else c in
      let f' =
        if_both (IsFitting name) accepts (accept_request c) c (accept_request-IsFitting name c f)
          f in
      if_both (IsFitting name) (connection_is (λ h. h.key == new.key) c) c _ f (
        if_cases (IsFitting name)
          (is_purpose new.conn.purpose known_contact
            || (not (is_connected new.conn)
                || not (has_authenticated_as hidden_service_auth c.hostname new.conn)))
          (close_held new c) _ (λ _. closed_new name new c f)
          (λ guard.
            if_both (IsFitting name) (is_outbound new && (not (has_request c) && not known))
              (update_outgoing_socket (update_status (close_held new c)))
              (resolve new (clear_outdated age new c'))
              (update_outgoing_socket-IsFitting name _
                (update_status-IsFitting name _ (closed_new name new c f)))
              (resolve-IsFitting name new (clear_outdated age new c')
                (ap (λ n. has_authenticated_as hidden_service_auth n new.conn) (sym f.named)
                  ∙ guarded _ _ _ guard)
                (clear_outdated-IsFitting name age new c' f'))))
    where
      guarded : (a b d : Bool) → (a || (b || not d)) ≡ false → d ≡ true
      guarded a b d e = ground arith

  on_ready-IsFitting :
      (age : ℕ) (new : Held) (c : Contact) → IsFitting name c → IsFitting name (on_ready age new c)
  unfolding on_ready
  on_ready-IsFitting age new c f = option_both (IsFitting name) c.outgoing_socket _ _ f (λ k _.
      assign_connection-IsFitting age new
        (record c { outgoing_socket = some (take_connection k).0 })
        (record { named = f.named; fits = f.fits }))

  on_disconnected-IsFitting : (c : Contact) → IsFitting name c → IsFitting name (on_disconnected c)
  unfolding on_disconnected
  on_disconnected-IsFitting c f = if_both (IsFitting name) (is_live c) c _ f (
      noted _ (
        update_status-IsFitting name (record c { connection = none })
          (record { named = f.named; fits = tt })))
    where
      noted : (d : Contact) → IsFitting name d → IsFitting name (signal contact_disconnected d)
      noted d g = record { named = g.named; fits = g.fits }

  with_connection-IsFitting :
      (g : Conn → Conn) (c : Contact)
      → ((conn : Conn) → Same conn (g conn))
      → IsFitting name c
      → IsFitting name (with_connection g c)
  with_connection-IsFitting g c p f =
      option_both (IsFitting name) c.connection c
        (λ h. record c { connection = some (record h { conn = g h.conn }) }) f
        (λ h e.
          filled name (record h { conn = g h.conn }) c _ refl refl
            (Fits-Same name h (g h.conn) (held-Fits name c h e f) (p h.conn)) f)

  on_connected-IsFitting :
      (g : Conn → Conn) (c : Contact)
      → ((conn : Conn) → Same conn (g conn))
      → IsFitting name c
      → IsFitting name (on_connected g c)
  unfolding on_connected
  on_connected-IsFitting g c p f = if_both (IsFitting name) (not (is_live c)) _ _ f (
      closed _ (
        told _ (
          update_status-IsFitting name _ (
            if_both (IsFitting name) _ (with_connection g c) c (with_connection-IsFitting g c p f)
              f))))
    where
      told :
          (d : Contact)
          → IsFitting name d
          → IsFitting name (if is_contact_online d then signal contact_connected d else d)
      told d h =
          if_both (IsFitting name) (is_contact_online d) _ _
            (record { named = h.named; fits = h.fits }) h

      closed :
          (d : Contact)
          → IsFitting name d
          → IsFitting name (
              if not (is_contact_online d) && not (same_status d.status request_pending)
              then with_connection close d
              else d)
      closed d h =
          if_both (IsFitting name)
            (not (is_contact_online d) && not (same_status d.status request_pending)) _ _
            (with_connection-IsFitting close d close-Same h) h

  step-IsFitting :
      (e : Event) (c : Contact) → IsPossible e → IsFitting name c → IsFitting name (step e c)
  unfolding step
  step-IsFitting (assigns age new) c p f = assign_connection-IsFitting age new c f
  step-IsFitting (readies age new) c p f = on_ready-IsFitting age new c f
  step-IsFitting (evolves g) c p f = with_connection-IsFitting g c p f
  step-IsFitting (notices g) c p f = on_connected-IsFitting g c p f
  step-IsFitting disconnects c p f = on_disconnected-IsFitting c f
  step-IsFitting requests c p f =
      update_status-IsFitting name (record c { request = some pending })
        (record { named = f.named; fits = f.fits })
  step-IsFitting accepts c p f = accept_request-IsFitting name c f

  run-IsFitting :
      (es : List Event) (c : Contact)
      → ArePossible es
      → IsFitting name c
      → IsFitting name (run es c)
  unfolding run
  run-IsFitting [] c p f = f
  run-IsFitting (e ∷ es) c p f = run-IsFitting es (step e c) p.1 (step-IsFitting e c p.0 f)

  new_contact-IsFitting :
      (identity_hostname : Text) (status : UserStatus)
      → IsFitting name (new_contact name identity_hostname status)
  unfolding new_contact
  new_contact-IsFitting identity_hostname status =
      update_outgoing_socket-IsFitting name _
        (update_status-IsFitting name _ (record { named = refl; fits = tt }))

-- After any history of a new contact, in which connections that move on by themselves, or send a
-- request, keep their authentication and their purpose: a connection that the contact has is authenticated as the
-- hidden service of the contact, and its purpose is that of a contact or of an outbound request.
pub contact_connection-Fits :
    (name identity_hostname : Text) (status : UserStatus) (es : List Event) (h : Held)
    → ArePossible es
    → (run es (new_contact name identity_hostname status)).connection ≡ some h
    → Fits name h
contact_connection-Fits name identity_hostname status es h p e =
    held-Fits name (run es (new_contact name identity_hostname status)) h e (
      run-IsFitting name es (new_contact name identity_hostname status) p
        (new_contact-IsFitting name identity_hostname status))
