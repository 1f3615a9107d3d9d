-- ===== src/Contacts/Holding.antt =====
-- Which connections a contact holds (src/libtego/source/core/ContactUser.cpp).
pub mod Assigning
pub mod Histories
use ricochet_irc.Prelude.{
  ℕ, ◌≡◌, refl, ap, ◌∙◌, Bool, true, false, not, ◌&&◌, ◌||◌, List, [], ◌∷◌, Option, none, some,
  is_some, if◌then◌else◌, ltb, ◌==◌, arith, if_both, if_cases, option_both,
}
use ricochet_irc.Connection.State.{
  Text, Conn, Channel, Kind, closed, is_connected, is_purpose, known_contact, outbound_request,
  Purpose, set_purpose, purpose_allowed, has_authenticated, has_authenticated_as,
  hidden_service_auth, known_to_peer,
}
use ricochet_irc.Connection.Channels.{
  close, close_channel, close_channel_object, invalidate, on_invalidated, write_packet,
}
use ricochet_irc.Connector.Status.{is_same}
use ricochet_irc.Contacts.User.{
  Contact, Held, has_connection, has_request, is_live, update_status, update_outgoing_socket,
  request_removed, request_accepted, close_request, remove_request, accept_request, on_disconnected,
  RequestStatus, pending, with_purpose, request_channel,
}
use ricochet_irc.Contacts.Assignment.{
  is_outbound, prefer_outbound, close_held, clear_connection, connection_is, clear_if,
  is_authenticating, attach, assign_with, clear_outdated, resolve, assign_connection, on_ready,
}
use ricochet_irc.Contacts.Unchanged.{Same, Same-refl, Same-trans, close-Same, close_channel-Same}

-- The connection has authenticated as `name`, and is that of a contact or of an outbound request.
pub record Fits (name : Text) (h : Held) : Type 0 where
  pub names : has_authenticated_as hidden_service_auth name h.conn ≡ true
  pub serves :
      (is_purpose h.conn.purpose known_contact || is_purpose h.conn.purpose outbound_request) ≡ true

abbrev pub AllFit : Text → Option Held → Type 0
AllFit name none = Unit {0}
AllFit name (some h) = Fits name h

-- A contact by the name `name`, whose connection, if it has one, fits.
pub record IsFitting (name : Text) (c : Contact) : Type 0 where
  pub named : c.hostname ≡ name
  pub fits : AllFit name c.connection

pub Fits-Same :
    (name : Text) (h : Held) (conn : Conn)
    → Fits name h
    → Same h.conn conn
    → Fits name (record h { conn = conn })
unfolding has_authenticated_as
Fits-Same name h conn f s = record { names = rw s.service f.names; serves = rw s.purpose f.serves }

module _ (name : Text) where
  -- Only the name and the connection matter.
  pub moved :
      (c c' : Contact)
      → c'.hostname ≡ c.hostname
      → c'.connection ≡ c.connection
      → IsFitting name c
      → IsFitting name c'
  moved c c' n e f = record { named = n ∙ f.named; fits = rw e f.fits }

  pub filled :
      (h : Held) (c c' : Contact)
      → c'.hostname ≡ c.hostname
      → c'.connection ≡ some h
      → Fits name h
      → IsFitting name c
      → IsFitting name c'
  filled h c c' n e fit f = record { named = n ∙ f.named; fits = rw e fit }

  pub update_outgoing_socket-IsFitting :
      (c : Contact) → IsFitting name c → IsFitting name (update_outgoing_socket c)
  unfolding update_outgoing_socket
  update_outgoing_socket-IsFitting c f =
      moved c (update_outgoing_socket c) (ground arith) (ground arith) f

  pub update_status-IsFitting : (c : Contact) → IsFitting name c → IsFitting name (update_status c)
  unfolding update_status
  update_status-IsFitting c f =
      if_both (IsFitting name) _ _ _ f
        (update_outgoing_socket-IsFitting _ (record { named = f.named; fits = f.fits }))

  request_removed-IsFitting : (c : Contact) → IsFitting name c → IsFitting name (request_removed c)
  unfolding request_removed
  request_removed-IsFitting c f =
      if_both (IsFitting name) (has_request c) _ _
        (update_status-IsFitting (record c { request = none })
          (record { named = f.named; fits = f.fits }))
        f

  from_all : (h : Held) (o : Option Held) → o ≡ some h → AllFit name o → Fits name h
  from_all h none e a = absurd (cc)
  from_all h (some h') e a = let same : h ≡ h' = cc in rw same a

  pub held-Fits : (c : Contact) (h : Held) → c.connection ≡ some h → IsFitting name c → Fits name h
  held-Fits c h e f = from_all h c.connection e f.fits

  -- The purpose of a connection that fits may become that of a contact.
  pub known-Fits :
      (h : Held)
      → Fits name h
      → Fits name (record h { conn = (set_purpose known_contact h.conn).0 })
  unfolding set_purpose has_authenticated_as
  known-Fits h f =
      if_both (λ (r : Conn × Bool). Fits name (record h { conn = r.0 }))
        (is_purpose h.conn.purpose known_contact) _ _ f
        (if_both (λ (r : Conn × Bool). Fits name (record h { conn = r.0 }))
          (purpose_allowed known_contact h.conn) _ _ (record { names = f.names; serves = refl }) f)

  request_accepted-IsFitting :
      (c : Contact) → IsFitting name c → IsFitting name (request_accepted c)
  unfolding request_accepted
  request_accepted-IsFitting c f = if_both (IsFitting name) (not (has_request c)) _ _ f (
      request_removed-IsFitting _ (
        option_both (IsFitting name) c.connection _ _ f
          (λ h e. filled (with_purpose h) c _ refl refl (known-Fits h (held-Fits c h e f)) f)))

  close_request-Same : (conn : Conn) → Same conn (close_request conn)
  unfolding close_request
  close_request-Same conn =
      option_both (Same conn) (request_channel conn.channels) conn
        (λ id.
          let conn' = close_channel id conn in
          if is_connected conn' && is_purpose conn'.purpose outbound_request
          then close conn'
          else conn')
        (Same-refl conn)
        (λ id _.
          let conn' = close_channel id conn in
          let s = close_channel-Same id conn in
          if_both (Same conn) (is_connected conn' && is_purpose conn'.purpose outbound_request)
            (close conn') conn' (Same-trans conn conn' (close conn') s (close-Same conn')) s)

  remove_request-IsFitting : (c : Contact) → IsFitting name c → IsFitting name (remove_request c)
  unfolding remove_request
  remove_request-IsFitting c f = request_removed-IsFitting _ (
      option_both (IsFitting name) c.connection _ _ f (λ h e.
        filled (record h { conn = close_request h.conn }) c _ refl refl
          (Fits-Same name h (close_request h.conn) (held-Fits c h e f) (close_request-Same h.conn))
          f))

  pub accept_request-IsFitting :
      (c : Contact) → IsFitting name c → IsFitting name (accept_request c)
  unfolding accept_request
  accept_request-IsFitting c f = option_both (IsFitting name) c.request _ _ f (λ r _.
      remove_request-IsFitting _ (
        request_accepted-IsFitting _ (
          if_both (IsFitting name) _ _ _ f
            (update_status-IsFitting _ (record { named = f.named; fits = f.fits })))))

  pub clear_connection-IsFitting :
      (c : Contact) → IsFitting name c → IsFitting name (clear_connection c)
  unfolding clear_connection
  clear_connection-IsFitting c f =
      option_both (IsFitting name) c.connection _ _ f (λ h _. record { named = f.named; fits = tt })
