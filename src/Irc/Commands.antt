-- ===== src/Irc/Commands.antt =====
-- The commands of the control channel (src/irc/RicochetIrcServer.cpp).
use ricochet_irc.Prelude.{
  ℕ, Bool, false, not, ◌&&◌, ◌||◌, List, [], ◌∷◌, ◌++◌, Option, none, some, is_some, find, remove,
  codes, length, if◌then◌else◌, same,
}
use ricochet_irc.Connection.State.{Text}
use ricochet_irc.Irc.Texts.{args, decimal, split_space, trimmed}
use ricochet_irc.Irc.State.{
  UserRef, client, virtual, IrcContact, IrcRequest, IrcServer, Call, null_pointer, create_request,
  delete_contact, set_nickname, accept_request, reject_request, nick_of, is_logged_in, call,
}
use ricochet_irc.Irc.Channels.{quit, find_user, rename, remove_client}
use ricochet_irc.Irc.Users.{Hooks}
use ricochet_irc.Irc.Control.{
  Setup, ricochet_user, handle_pm, echo, error, cmd_help, user_logged_in, user_left,
}

abbrev pub contact_named : Text → List IrcContact → Option IrcContact
contact_named nickname [] = none
contact_named nickname (k ∷ ks) =
    if same k.nickname nickname then some k else contact_named nickname ks

abbrev pub request_by_id : Text → List IrcRequest → Option IrcRequest
request_by_id id [] = none
request_by_id id (r ∷ rs) = if same r.sender_id id then some r else request_by_id id rs

-- The arguments from the third one on, with spaces between them.
abbrev pub add_arguments : Text → List Text → Text
add_arguments message [] = message
add_arguments message (a ∷ rest) = add_arguments (message ++ args (codes " %1") (a ∷ [])) rest

abbrev pub any_logged_in : IrcServer → List ℕ → Bool
any_logged_in s [] = false
any_logged_in s (c ∷ cs) = is_logged_in c s || any_logged_in s cs

module _ (setup : Setup) where
  unfoldable pub cmd_id : IrcServer → IrcServer
  cmd_id = echo setup setup.contact_id

  unfoldable pub cmd_add : List Text → IrcServer → IrcServer
  cmd_add (id ∷ nickname ∷ word ∷ words) s =
      let message = add_arguments word words in
      if setup.is_acceptable id
      then call (create_request id nickname message) (
          echo setup
            (args (codes "sending contact request to user `%1` with id: %2 with message: %3")
              (nickname ∷ id ∷ message ∷ []))
            s)
      else error setup (args (codes "invalid Ricochet ID: %1") (id ∷ [])) s
  cmd_add _ s = error setup (codes "Unexpected arguments.") s

  -- `quit(usermap.value(contact))`: without a user the pointer is null, and the prefix of the
  -- sender is read if anybody is logged in.
  abbrev pub quit_user : Option ℕ → IrcServer → IrcServer
  quit_user none s = if any_logged_in s s.clients then call null_pointer s else s
  quit_user (some v) s = quit (virtual v) s

  abbrev pub drop_virtual : Option ℕ → IrcServer → IrcServer
  drop_virtual none s = s
  drop_virtual (some v) s = record s { virtual_clients = remove_client v s.virtual_clients }

  unfoldable pub cmd_delete : List Text → IrcServer → IrcServer
  cmd_delete (nickname ∷ []) s = elim (contact_named nickname s.contacts) [
    | none ↦ echo setup (codes "Contact not found.") s
    | some k ↦
        let v = find k.key s.usermap in
        let s1 = drop_virtual v (call (delete_contact k.key) s) in
        let s2 = quit_user v s1 in record s2 { usermap = remove k.key s2.usermap }
  ]
  cmd_delete _ s = error setup (codes "Unexpected arguments.") s

  unfoldable pub rename_contact : Text → Text → IrcContact → IrcServer → IrcServer
  rename_contact old_nickname new_nickname k s =
      let s1 = call (set_nickname k.key new_nickname) (
        echo setup (args (codes "renaming user `%1` to `%2`") (old_nickname ∷ new_nickname ∷ []))
          s) in
      elim (find k.key s1.usermap) [
        | none ↦ s1
        | some v ↦ rename setup.qt.host none (virtual v) new_nickname s1
      ]

  unfoldable pub cmd_rename : List Text → IrcServer → IrcServer
  cmd_rename (old_nickname ∷ new_nickname ∷ []) s =
      if is_some (contact_named new_nickname s.contacts) || find_user new_nickname s
      then error setup (args (codes "Target nickname `%1` already exists.") (new_nickname ∷ [])) s
      else elim (contact_named old_nickname s.contacts) [
        | none ↦ echo setup (codes "Contact not found.") s
        | some k ↦ rename_contact old_nickname new_nickname k s
      ]
  cmd_rename _ s = error setup (codes "Unexpected arguments.") s

  abbrev pub list_requests : List IrcRequest → IrcServer → IrcServer
  list_requests [] s = s
  list_requests (r ∷ rs) s =
      list_requests rs
        (echo setup (args (codes "    %1 (message: %2)") (r.sender_id ∷ r.message ∷ [])) s)

  abbrev pub with_request : Text → Call → IrcServer → IrcServer
  with_request id k s =
      if is_some (request_by_id id s.requests)
      then call k s
      else echo setup (codes "No such request was found.") s

  unfoldable pub cmd_request : List Text → IrcServer → IrcServer
  cmd_request (verb ∷ []) s =
      if same verb (codes "list")
      then list_requests s.requests (
          echo setup
            (args (codes "You have %1 incoming contact request(s):")
              (decimal (length s.requests) ∷ []))
            s)
      else error setup (codes "Unexpected arguments.") s
  cmd_request (verb ∷ id ∷ []) s =
      if same verb (codes "reject")
      then with_request id (reject_request id) s
      else error setup (codes "Unexpected arguments.") s
  cmd_request (verb ∷ id ∷ nickname ∷ []) s =
      if same verb (codes "accept")
      then with_request id (accept_request id nickname) s
      else error setup (codes "Unexpected arguments.") s
  cmd_request _ s = error setup (codes "Unexpected arguments.") s

  unfoldable pub run_command : Text → List Text → IrcServer → IrcServer
  run_command cmd rest s =
      if same cmd (codes "help")
      then cmd_help setup s
      else if same cmd (codes "id")
      then cmd_id s
      else if same cmd (codes "add")
      then cmd_add rest s
      else if same cmd (codes "delete")
      then cmd_delete rest s
      else if same cmd (codes "rename")
      then cmd_rename rest s
      else if same cmd (codes "request")
      then cmd_request rest s
      else error setup (args (codes "Unknown command: %1") (cmd ∷ [])) s

  unfoldable pub parse_command : List Text → IrcServer → IrcServer
  parse_command [] s = s
  parse_command (cmd ∷ rest) s = run_command cmd rest s

  -- `qobject_cast<IrcConnection*>`.
  abbrev pub connection_of : UserRef → Option ℕ
  connection_of (client c) = some c
  connection_of (virtual v) = none

  unfoldable pub privmsg_hook : UserRef → Text → Text → IrcServer → IrcServer
  privmsg_hook sender target text s =
      if same target setup.control_channel_name
        && not (same (nick_of sender s) (nick_of ricochet_user s))
      then parse_command (split_space (trimmed setup.qt.is_space text)) s
      else handle_pm setup (connection_of sender) target text s

  -- `RicochetIrcServer` as an `IrcServer`.
  abbrev pub ricochet_hooks : Hooks
  ricochet_hooks = record {
    welcome_message = codes "Welcome to Ricochet-IRC!";
    privmsg_hook = privmsg_hook;
    user_logged_in = user_logged_in setup;
    user_left = user_left setup;
  }
