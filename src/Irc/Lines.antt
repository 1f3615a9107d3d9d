-- ===== src/Irc/Lines.antt =====
-- What a connection does with a line (src/irc/IrcConnection.cpp), and the slots of the server that
-- call a virtual method (src/irc/IrcServer.cpp).
use ricochet_irc.Prelude.{
  ℕ, Bool, false, not, ◌&&◌, List, [], ◌∷◌, Option, none, some, codes, length, ltb, ◌==◌,
  if◌then◌else◌, same,
}
use ricochet_irc.Connection.State.{Text}
use ricochet_irc.Irc.Texts.{args, is_nickname, is_user_name, is_realname, is_channel_name}
use ricochet_irc.Irc.State.{
  UserRef, client, IrcServer, close, nick_of, is_logged_in, update_connection, call, reply,
  reply_code,
}
use ricochet_irc.Irc.Channels.{part, quit, rename}
use ricochet_irc.Irc.Users.{
  Hooks, Message, Qt, has_nick, has_pass, join, param, params_of, relay, welcome_of, with_nick,
  with_pass, with_user, with_welcome,
}

module _ (qt : Qt) (hooks : Hooks) where
  unfoldable pub privmsg : UserRef → Text → Text → IrcServer → IrcServer
  privmsg r target text s = hooks.privmsg_hook r target text (relay r target text s)

  abbrev pub expected_argument : ℕ → IrcServer → IrcServer
  expected_argument c = reply_code qt.host 421 c (codes "Expected argument.")

  abbrev pub prohibited : ℕ → IrcServer → IrcServer
  prohibited c = reply_code qt.host 444 c (codes "Access prohibited.")

  -- `reply` and `socket->close()`.
  abbrev pub reply_and_close : ℕ → ℕ → Text → IrcServer → IrcServer
  reply_and_close command c text s = call (close c) (reply_code qt.host command c text s)

  unfoldable pub check_login : ℕ → IrcServer → IrcServer
  check_login c s =
      if is_logged_in c s && not (welcome_of c s)
      then (let nick = nick_of (client c) s in
          let s1 =
            reply_code qt.host 1 c (args (codes "%1 :%2") (nick ∷ hooks.welcome_message ∷ [])) s in
          let s2 =
            reply_code qt.host 2 c (args (codes "%1 :Your host is: %2") (nick ∷ qt.host c ∷ []))
              s1 in
          update_connection c with_welcome (hooks.user_logged_in c s2))
      else s

  unfoldable pub handle_pass : ℕ → List Text → IrcServer → IrcServer
  handle_pass c params s =
      if ltb (length params) 1
      then expected_argument c s
      else if has_pass c s
      then check_login c s
      else if same s.password (param 0 params)
      then check_login c (update_connection c with_pass s)
      else reply_and_close 464 c (codes "Invalid password.") s

  unfoldable pub handle_nick : ℕ → List Text → IrcServer → IrcServer
  handle_nick c params s =
      if ltb (length params) 1
      then expected_argument c s
      else if not (is_nickname (param 0 params))
      then reply_code qt.host 432 c (codes "Invalid nickname.") s
      else (let s' = rename qt.host (some c) (client c) (param 0 params) s in
          if has_nick c s' then s' else check_login c (update_connection c with_nick s'))

  unfoldable pub handle_user : ℕ → List Text → IrcServer → IrcServer
  handle_user c params s =
      if ltb (length params) 4
      then expected_argument c s
      else if not (is_user_name (param 0 params))
      then reply_and_close 421 c (codes "Invalid user name.") s
      else if not (is_realname (param 3 params))
      then reply_and_close 421 c (codes "Invalid real name.") s
      else check_login c (update_connection c (with_user (param 0 params) (param 3 params)) s)

  unfoldable pub handle_join : ℕ → List Text → IrcServer → IrcServer
  handle_join c params s =
      if ltb (length params) 1
      then expected_argument c s
      else if not (is_logged_in c s)
      then prohibited c s
      else join qt c (param 0 params) s

  unfoldable pub handle_privmsg : ℕ → List Text → IrcServer → IrcServer
  handle_privmsg c params s =
      if ltb (length params) 2
      then expected_argument c s
      else if not (is_logged_in c s)
      then prohibited c s
      else privmsg (client c) (param 0 params) (param 1 params) s

  unfoldable pub handle_part : ℕ → List Text → IrcServer → IrcServer
  handle_part c params s =
      if ltb (length params) 1
      then expected_argument c s
      else if not (is_logged_in c s)
      then prohibited c s
      else if not (is_channel_name (param 0 params))
      then reply_code qt.host 403 c (codes "Invalid channel name.") s
      else part (client c) (param 0 params) s

  unfoldable pub handle_ping : ℕ → List Text → IrcServer → IrcServer
  handle_ping c params = reply qt.host c (args (codes "PONG %1 :%2") (qt.host c ∷ qt.host c ∷ []))

  unfoldable pub handle_quit : ℕ → List Text → IrcServer → IrcServer
  handle_quit c params = quit (client c)

  -- `command_funcs[command](params)`, `none` where there is no such command.
  unfoldable pub command_func : Text → Option (ℕ → List Text → IrcServer → IrcServer)
  command_func command =
      if same command (codes "PASS")
      then some handle_pass
      else if same command (codes "NICK")
      then some handle_nick
      else if same command (codes "USER")
      then some handle_user
      else if same command (codes "JOIN")
      then some handle_join
      else if same command (codes "PING")
      then some handle_ping
      else if same command (codes "PRIVMSG")
      then some handle_privmsg
      else if same command (codes "PART")
      then some handle_part
      else if same command (codes "QUIT")
      then some handle_quit
      else none

  -- `PASS` is the only command that is let through before the password.
  abbrev pub guarded : ℕ → Message → IrcServer → (ℕ → List Text → IrcServer → IrcServer) → IrcServer
  guarded c m s f =
      if not (has_pass c s) && not (same m.command (codes "PASS"))
      then reply_code qt.host 451 c (codes "User cannot proceed without a password.") s
      else f c (params_of m) s

  abbrev pub run_func :
      ℕ → Message → IrcServer → Option (ℕ → List Text → IrcServer → IrcServer) → IrcServer
  run_func c m s none = s
  run_func c m s (some f) = guarded c m s f

  unfoldable pub handle_message : ℕ → Message → IrcServer → IrcServer
  handle_message c m s = run_func c m s (command_func m.command)

  unfoldable pub handle_line : ℕ → Text → IrcServer → IrcServer
  handle_line c line s = elim (qt.match_message line) [
    | none ↦ call (close c) s
    | some m ↦ handle_message c m s
  ]

abbrev starts_with_newline : Text → Bool
starts_with_newline [] = false
starts_with_newline (c ∷ cs) = c == 10

abbrev drop_first : List Text → List Text
drop_first ((c ∷ w) ∷ ws) = w ∷ ws
drop_first ws = ws

abbrev add_first : ℕ → List Text → List Text
add_first c [] = (c ∷ []) ∷ []
add_first c (w ∷ ws) = (c ∷ w) ∷ ws

-- `split("\r\n")`.
abbrev split_crlf : Text → List Text
split_crlf [] = [] ∷ []
split_crlf (c ∷ cs) =
    let rest = split_crlf cs in
    if c == 13 && starts_with_newline cs then [] ∷ drop_first rest else add_first c rest

abbrev without_empty : List Text → List Text
without_empty [] = []
without_empty ([] ∷ ws) = without_empty ws
without_empty (w ∷ ws) = w ∷ without_empty ws

-- The lines that `readyRead` handles, one behind the other.
abbrev pub lines_of : Text → List Text
lines_of text = without_empty (split_crlf text)
