-- ===== src/Irc/Control.antt =====
-- The control user and the control channel, the messages that leave for a contact, and the logins
-- and logouts (src/irc/RicochetIrcServer.cpp).
use ricochet_irc.Prelude.{
  ℕ, Bool, List, [], ◌∷◌, ◌++◌, Option, none, some, codes, length, ltb, ◌==◌, if◌then◌else◌, same,
}
use ricochet_irc.Connection.State.{Text}
use ricochet_irc.Irc.Texts.{args}
use ricochet_irc.Irc.State.{
  UserRef, client, virtual, IrcUser, IrcChannel, IrcContact, IrcServer, start_tor, stop_tor,
  null_pointer, send_to_contact, nick_of, call, reply_code,
}
use ricochet_irc.Irc.Channels.{
  add_member, has_member, get_channel, update_channel, set_member_flags, quit, disconnect,
}
use ricochet_irc.Irc.Users.{Qt, relay, join}

-- The objects of the process: the channel of the command line, the version of the program, the
-- identifier of the user, and the test of a contact's identifier (ContactIDValidator of the shims).
pub record Setup : Type 0 where
  pub qt : Qt
  pub control_channel_name : Text
  pub version : Text
  pub contact_id : Text
  pub is_acceptable : Text → Bool

abbrev pub ricochet_user : UserRef
ricochet_user = virtual 0

abbrev pub control_user : IrcUser
control_user = record {
  nick = codes "ricochet";
  user = codes "ricochet";
  hostname = codes "::1";
  realname = codes "Ricochet Control User";
}

abbrev pub contact_away : Setup → Option ℕ → IrcContact → IrcServer → IrcServer
contact_away setup none k s = call null_pointer s
contact_away setup (some c) k s =
    reply_code setup.qt.host 301 c
      (args (codes "%1 %2 :is offline") (nick_of (client c) s ∷ k.nickname ∷ [])) s

unfoldable pub message_contacts :
    Setup → Option ℕ → Text → Text → List IrcContact → IrcServer → IrcServer
message_contacts setup sender target text [] s = s
message_contacts setup sender target text (k ∷ ks) s =
    let s1 = call (send_to_contact sender k.key text) s in
    let s2 = if k.is_online then s1 else contact_away setup sender k s1 in
    message_contacts setup sender target text ks (if same k.nickname target then s2 else s)

-- `sender` is null for a user without a connection.
unfoldable pub handle_pm : Setup → Option ℕ → Text → Text → IrcServer → IrcServer
handle_pm setup sender target text s = message_contacts setup sender target text s.contacts s

module _ (setup : Setup) where
  -- The control user writes to the control channel. Its own messages are no commands, so the
  -- virtual method hands them to `handlePM`.
  unfoldable pub echo : Text → IrcServer → IrcServer
  echo text s =
      handle_pm setup none setup.control_channel_name text
        (relay ricochet_user setup.control_channel_name text s)

  abbrev pub echo_lines : List Text → IrcServer → IrcServer
  echo_lines [] s = s
  echo_lines (t ∷ ts) s = echo_lines ts (echo t s)

  unfoldable pub error : Text → IrcServer → IrcServer
  error text = echo (codes "ERROR: " ++ text)

  abbrev pub attention : IrcChannel → List ℕ → IrcServer → IrcServer
  attention cc [] s = s
  attention cc (c ∷ cs) s =
      let nick = nick_of (client c) s in
      attention cc cs
        (if has_member nick s cc then echo (args (codes "%1: Attention!") (nick ∷ [])) s else s)

  unfoldable pub highlight : IrcServer → IrcServer
  highlight s =
      let (cc, s') = get_channel setup.control_channel_name s in attention cc s'.clients s'

  abbrev pub help_texts : List Text
  help_texts =
      codes " ___ _            _        _     ___ ___  ___       ____"
      ∷ codes "| _ (_)__ ___  __| |_  ___| |_  |_ _| _ \\/ __| __ _|__ /"
      ∷ codes "|   / / _/ _ \\/ _| ' \\/ -_)  _|  | ||   / (__  \\ V /|_ \\"
      ∷ codes "|_|_\\_\\__\\___/\\__|_||_\\___|\\__| |___|_|_\\\\___|  \\_/|___/"
      ∷ args (codes "%1, based on libtego_ui 3.0.29") (setup.version ∷ [])
      ∷ []
      ∷ codes "COMMANDS:"
      ∷ codes " * help"
      ∷ codes " * id                            -- print your ricochet id"
      ∷ codes " * add ID NICKNAME MESSAGE       -- add a contact"
      ∷ codes " * delete NICKNAME               -- delete a contact"
      ∷ codes " * rename NICKNAME NEW_NICKNAME  -- rename a contact"
      ∷ codes " * request list                  -- list incoming requests"
      ∷ codes " * request accept ID NICKNAME    -- accept incoming request"
      ∷ codes " * request reject ID             -- reject incoming request"
      ∷ []
      ∷ []

  unfoldable pub cmd_help : IrcServer → IrcServer
  cmd_help = echo_lines help_texts

  -- `ircUserLeft`, with `stopRicochet`.
  unfoldable pub user_left : IrcServer → IrcServer
  user_left s = if length s.clients == 0 then call stop_tor s else s

  -- The loop that ends the other connections.
  unfoldable pub kill_others : ℕ → List ℕ → IrcServer → IrcServer
  kill_others c [] s = s
  kill_others c (d ∷ ds) s =
      kill_others c ds (if c == d then s else disconnect user_left d (quit (client d) s))

  -- The control channel is joined, with the help text. One client starts Tor (`startRicochet`), and
  -- where there are more the older ones are ended.
  unfoldable pub user_logged_in : ℕ → IrcServer → IrcServer
  user_logged_in c s =
      let name = setup.control_channel_name in
      let s1 = cmd_help (set_member_flags name (client c) (codes "+o") (join setup.qt c name s)) in
      if length s1.clients == 1
      then call start_tor s1
      else if ltb 1 (length s1.clients)
      then kill_others c s1.clients s1
      else s1

  -- The server with its control user.
  abbrev pub fresh_server : Text → IrcServer
  fresh_server password = record {
    password = password;
    connections = [];
    clients = [];
    virtual_users = (0, control_user) ∷ [];
    virtual_clients = 0 ∷ [];
    channels = [];
    usermap = [];
    next_virtual = 1;
    contacts = [];
    requests = [];
    calls = [];
  }

  -- The constructor and `run`.
  unfoldable pub start : Text → IrcServer
  start password =
      let (ch, s) = get_channel setup.control_channel_name (fresh_server password) in
      update_channel setup.control_channel_name (add_member ricochet_user (codes "@")) s
