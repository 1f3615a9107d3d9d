-- ===== src/Irc/State.antt =====
-- The state of the IRC server: its users, its connections, its channels and the contacts behind
-- them (src/irc/IrcUser.cpp, IrcConnection.cpp, IrcServer.h, IrcChannel.h).
use ricochet_irc.Prelude.{
  ℕ, Bool, false, ◌&&◌, List, [], ◌∷◌, ◌++◌, Option, none, some, Dict, find, put, codes, ◌==◌,
}
use ricochet_irc.Connection.State.{Text}
use ricochet_irc.Irc.Texts.{args, three_digits}

-- A pointer to an `IrcUser`: a connection, or a user without one. The numbers stand for addresses.
pub data UserRef : Type 0 where
  client virtual : ℕ → UserRef

abbrev pub same_user : UserRef → UserRef → Bool
same_user (client c) (client d) = c == d
same_user (virtual v) (virtual w) = v == w
same_user _ _ = false

pub record IrcUser : Type 0 where
  pub nick : Text
  pub user : Text
  pub hostname : Text
  pub realname : Text

abbrev pub new_user : IrcUser
new_user = record { nick = []; user = []; hostname = []; realname = [] }

-- The base class is the field `who`.
pub record IrcConnection : Type 0 where
  pub who : IrcUser
  pub have_nick : Bool
  pub have_user : Bool
  pub have_pass : Bool
  pub welcome_sent : Bool

-- `members` maps a user to its flags.
pub record IrcChannel : Type 0 where
  pub name : Text
  pub members : List (UserRef × Text)
  pub topic : Text

-- A contact as the shims of libtego show it.
pub record IrcContact : Type 0 where
  pub key : ℕ
  pub nickname : Text
  pub contact_id : Text
  pub is_online : Bool

pub record IrcRequest : Type 0 where
  pub sender_id : Text
  pub message : Text

-- What the server does to the world: to a socket, to Tor, and to the contacts. `null_pointer` is a
-- member read or called through a null pointer, of which C++ says nothing. `send_to_contact` says
-- which connection the message is from, `none` for the control user.
pub data Call : Type 0 where
  write : ℕ → Text → Call
  close : ℕ → Call
  start_tor stop_tor null_pointer : Call
  send_to_contact : Option ℕ → ℕ → Text → Call
  create_request : Text → Text → Text → Call
  delete_contact : ℕ → Call
  set_nickname : ℕ → Text → Call
  accept_request : Text → Text → Call
  reject_request : Text → Call

-- `connections` has every connection that was ever made, since none is deleted before the server
-- is; `clients` has those that the server knows, each under the number of its connection for that
-- of its socket. `calls` is newest first. `contacts` and `requests` are what the shims answer.
pub record IrcServer : Type 0 where
  pub password : Text
  pub connections : Dict IrcConnection
  pub clients : List ℕ
  pub virtual_users : Dict IrcUser
  pub virtual_clients : List ℕ
  pub channels : List IrcChannel
  pub usermap : Dict ℕ
  pub next_virtual : ℕ
  pub contacts : List IrcContact
  pub requests : List IrcRequest
  pub calls : List Call

abbrev pub who_or_new : Option IrcConnection → IrcUser
who_or_new none = new_user
who_or_new (some o) = o.who

abbrev user_or_new : Option IrcUser → IrcUser
user_or_new none = new_user
user_or_new (some u) = u

-- The object that a pointer points to.
abbrev pub user_at : UserRef → IrcServer → IrcUser
user_at (client c) s = who_or_new (find c s.connections)
user_at (virtual v) s = user_or_new (find v s.virtual_users)

abbrev pub nick_of : UserRef → IrcServer → Text
nick_of r s = (user_at r s).nick

-- The values of `%1!~%2@%3` are put in at once.
abbrev pub get_prefix : UserRef → IrcServer → Text
get_prefix r s = let u = user_at r s in u.nick ++ codes "!~" ++ u.user ++ codes "@" ++ u.hostname

abbrev pub connection_logged_in : Option IrcConnection → Bool
connection_logged_in none = false
connection_logged_in (some o) = o.have_nick && (o.have_user && o.have_pass)

abbrev pub is_logged_in : ℕ → IrcServer → Bool
is_logged_in c s = connection_logged_in (find c s.connections)

abbrev pub update_connection : ℕ → (IrcConnection → IrcConnection) → IrcServer → IrcServer
update_connection c f s = elim (find c s.connections) [
  | none ↦ s
  | some o ↦ record s { connections = put c (f o) s.connections }
]

abbrev pub call : Call → IrcServer → IrcServer
call k s = record s { calls = k ∷ s.calls }

-- `reply(prefix, text)`.
abbrev pub reply_as : Text → ℕ → Text → IrcServer → IrcServer
reply_as prefix c text = call (write c (args (codes ":%1 %2\r\n") (prefix ∷ text ∷ [])))

-- `reply(text)` and `reply(command, text)`; `host` is the local address of a socket.
module _ (host : ℕ → Text) where
  abbrev pub reply : ℕ → Text → IrcServer → IrcServer
  reply c text = reply_as (host c) c text

  abbrev pub reply_code : ℕ → ℕ → Text → IrcServer → IrcServer
  reply_code command c text = reply c (args (codes "%1 %2") (three_digits command ∷ text ∷ []))
