-- ===== src/Tests/Clients.antt =====
-- Clients of the IRC server at concrete inputs (src/irc).
use ricochet_irc.Prelude.{
  ℕ, All, ◌⊎◌, ◌↔◌, List, [], ◌∷◌, ◌++◌, ◌≡◌, refl, true, false, Bool, Option, some, codes,
  if◌then◌else◌, ◌==◌, ◌&&◌,
}
use ricochet_irc.Connection.State.{Text}
use ricochet_irc.Irc.Texts.{args, arg, split_at}
use ricochet_irc.Irc.State.{client, IrcConnection, nick_of, IrcServer, is_logged_in}
use ricochet_irc.Irc.Lines.{
  handle_line, handle_message, command_func, handle_pass, handle_nick, check_login, lines_of,
}
use ricochet_irc.Irc.Users.{new_connection, has_nick, Message, Qt}
use ricochet_irc.Irc.Control.{Setup, start, fresh_server}
use ricochet_irc.Irc.Evolution.{Guests, is_listed}
use ricochet_irc.Irc.Admission.{Member, Allowed}
use ricochet_irc.Irc.Admission.Histories.{members-orders_admitted}
use ricochet_irc.Irc.Nicknames.Histories.{nicknames_distinct}
use ricochet_irc.Irc.Alone.{check_login-alone}
use ricochet_irc.Irc.Commands.{ricochet_hooks}
use ricochet_irc.Irc.Channels.{get_channel, rename, find_user, broadcast, broadcast_to}
use ricochet_irc.Irc.Events.{step, reading, Event, connected, line, run}

-- A matcher for lines without a prefix: a word, the text up to " :", and the rest.
abbrev word_of : Text → Text
word_of [] = []
word_of (c ∷ cs) = if c == 32 then [] else c ∷ word_of cs

abbrev behind_word : Text → Text
behind_word [] = []
behind_word (c ∷ cs) = if c == 32 then cs else behind_word cs

abbrev starts_with_colon : Text → Bool
starts_with_colon [] = false
starts_with_colon (c ∷ cs) = c == 58

abbrev params_part : Text → Text
params_part [] = []
params_part (c ∷ cs) = if c == 32 && starts_with_colon cs then [] else c ∷ params_part cs

abbrev tail : Text → Text
tail [] = []
tail (c ∷ cs) = cs

abbrev trailing_part : Text → Text
trailing_part [] = []
trailing_part (c ∷ cs) = if c == 32 && starts_with_colon cs then tail cs else trailing_part cs

abbrev match_simple : Text → Option Message
match_simple text = some (record {
  prefix = [];
  command = word_of text;
  params = params_part (behind_word text);
  trailing = trailing_part (behind_word text);
})

abbrev qt : Qt
qt = record { match_message = match_simple; is_space = λ c. c == 32; host = λ c. codes "::1" }

abbrev setup : Setup
setup = record {
  qt = qt;
  control_channel_name = codes "#ricochet";
  version = codes "3";
  contact_id = codes "ricochet:me";
  is_acceptable = λ id. true;
}

-- Newest first.
abbrev login : List Event
login =
    line 7 (codes "USER bob 0 * :Bob")
    ∷ line 7 (codes "NICK bob")
    ∷ line 7 (codes "PASS secret")
    ∷ connected 7
    ∷ []

abbrev crlf : Text
crlf = 13 ∷ 10 ∷ []

-- In one reading.
abbrev guessing : List Event
guessing =
    reading 7
      (codes "PASS wrong" ++ crlf ++ codes "NICK bob" ++ crlf ++ codes "USER bob 0 * :Bob" ++ crlf)
      (connected 7 ∷ [])

wrong_password : is_logged_in 7 (run setup (codes "secret") guessing) ≡ false
unfolding run step new_connection start get_channel handle_line handle_message command_func
    handle_pass split_at
wrong_password = refl

arg_run : args (codes "PRIVMSG %1 :%2") (codes "#%2" ∷ codes "hi" ∷ []) ≡ codes "PRIVMSG #hi :hi"
unfolding arg
arg_run = refl

lines_run : lines_of (13 ∷ 10 ∷ codes "a" ++ (13 ∷ 10 ∷ codes "b")) ≡ codes "a" ∷ codes "b" ∷ []
lines_run = refl

abbrev bob : ℕ
bob = 7

abbrev eve : ℕ
eve = 8

-- Two clients ask for the same nickname.
abbrev same_name : List Event
same_name =
    line 8 (codes "NICK bob")
    ∷ line 8 (codes "PASS secret")
    ∷ connected 8
    ∷ line 7 (codes "NICK bob")
    ∷ line 7 (codes "PASS secret")
    ∷ connected 7
    ∷ []

abbrev secret : Text
secret = codes "secret"

abbrev named_run : IrcServer
named_run = run setup secret same_name

-- The second one is refused, and counts as named all the same.
refused_nick : (nick_of (client 8) named_run ≡ []) × (has_nick 8 named_run ≡ true)
unfolding run step new_connection start get_channel handle_line handle_message command_func
    handle_pass handle_nick check_login rename find_user broadcast broadcast_to split_at
refused_nick = (refl, refl)

members-orders_admitted_example :
    Guests (Member qt secret login) (run setup secret login).channels
    × All (Allowed qt secret login) (run setup secret login).calls
members-orders_admitted_example = members-orders_admitted setup secret login refl

nicknames_distinct_example : (nick_of (client bob) named_run ≡ []) ⊎ (bob ≡ bob)
unfolding run step new_connection start get_channel handle_line handle_message command_func
    handle_pass handle_nick check_login rename find_user broadcast broadcast_to split_at
nicknames_distinct_example = nicknames_distinct setup secret same_name bob bob refl refl refl

abbrev complete : Text → IrcConnection
complete nick = record {
  who = record { nick = nick; user = nick; hostname = codes "::1"; realname = nick };
  have_nick = true;
  have_user = true;
  have_pass = true;
  welcome_sent = false;
}

abbrev two_clients : IrcServer
two_clients = record (fresh_server setup secret) {
  connections = (7, complete (codes "bob")) ∷ (8, complete (codes "eve")) ∷ [];
  clients = 7 ∷ 8 ∷ [];
}

check_login-alone_example :
    (is_listed eve (check_login qt (ricochet_hooks setup) bob two_clients).clients ≡ true)
    ↔ (bob ≡ eve)
check_login-alone_example = check_login-alone setup bob two_clients eve refl refl refl
