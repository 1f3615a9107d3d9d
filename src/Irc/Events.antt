-- ===== src/Irc/Events.antt =====
-- What happens to the server: connections, lines, and the signals of the contacts and of Tor
-- (src/irc).
use ricochet_irc.Prelude.{ℕ, Bool, List, [], ◌∷◌, Option, is_some, find, if◌then◌else◌}
use ricochet_irc.Connection.State.{Text}
use ricochet_irc.Irc.State.{IrcContact, IrcRequest, IrcServer}
use ricochet_irc.Irc.Channels.{disconnect}
use ricochet_irc.Irc.Lines.{handle_line, lines_of}
use ricochet_irc.Irc.Users.{new_connection}
use ricochet_irc.Irc.Control.{Setup, start, user_left}
use ricochet_irc.Irc.Commands.{ricochet_hooks}
use ricochet_irc.Irc.Slots.{
  on_contact_status_changed, tor_running_changed, on_tor_control_status_changed, forward_message,
  request_added,
}

-- A reading is one event for each of its lines, since a socket that is closed can report that
-- before the next line is handled. The lists of contacts and of requests belong to libtego and
-- change at any time.
pub data Event : Type 0 where
  connected dropped : ℕ → Event
  line : ℕ → Text → Event
  contacts_changed : List IrcContact → Event
  requests_changed : List IrcRequest → Event
  contact_status_changed : IrcContact → Option Bool → Event
  tor_running : Text → Event
  tor_control_status : Bool → Event
  message_from : ℕ → Bool → Text → Event
  request_arrived : IrcRequest → Event

abbrev lines_from : ℕ → List Text → List Event → List Event
lines_from c [] es = es
lines_from c (t ∷ ts) es = lines_from c ts (line c t ∷ es)

-- `readyRead` behind a history, newest first, if the socket reports nothing between the lines.
abbrev pub reading : ℕ → Text → List Event → List Event
reading c text es = lines_from c (lines_of text) es

module _ (setup : Setup) where
  unfoldable pub step : Event → IrcServer → IrcServer
  step (connected c) s = new_connection setup.qt c s
  step (dropped c) s =
      if is_some (find c s.connections) then disconnect (user_left setup) c s else s
  step (line c text) s =
      if is_some (find c s.connections)
      then handle_line setup.qt (ricochet_hooks setup) c text s
      else s
  step (contacts_changed ks) s = record s { contacts = ks }
  step (requests_changed rs) s = record s { requests = rs }
  step (contact_status_changed k status) s = on_contact_status_changed setup k status s
  step (tor_running running) s = tor_running_changed setup running s
  step (tor_control_status is_connected) s = on_tor_control_status_changed setup is_connected s
  step (message_from key is_outgoing text) s = forward_message setup key is_outgoing text s
  step (request_arrived r) s = request_added setup r s

  -- A history, newest first.
  unfoldable pub run : Text → List Event → IrcServer
  run password [] = start setup password
  run password (e ∷ es) = step e (run password es)
