-- ===== src/Irc/Users.antt =====
-- What a connection keeps and does apart from its lines: what it sends on, the channels that it
-- joins, its flags (src/irc/IrcConnection.cpp, IrcServer.cpp).
use ricochet_irc.Prelude.{
  ℕ, zero, suc, Bool, true, false, List, [], ◌∷◌, ◌++◌, Option, none, some, is_some, find, put,
  codes, ◌==◌, if◌then◌else◌, same,
}
use ricochet_irc.Connection.State.{Text}
use ricochet_irc.Irc.Texts.{args, is_channel_name, split_space}
use ricochet_irc.Irc.State.{
  UserRef, client, IrcConnection, IrcChannel, IrcServer, new_user, nick_of, get_prefix, reply_as,
  reply, reply_code,
}
use ricochet_irc.Irc.Channels.{
  add_member, has_member, get_member_list_string, update_channel, get_channel, channel_message,
  joined,
}

-- What `re_message` captures. An absent group is an empty text.
pub record Message : Type 0 where
  pub prefix : Text
  pub command : Text
  pub params : Text
  pub trailing : Text

-- Qt: the match of `re_message`, `QChar::isSpace`, and the local address of a socket.
pub record Qt : Type 0 where
  pub match_message : Text → Option Message
  pub is_space : ℕ → Bool
  pub host : ℕ → Text

-- The virtual methods of `IrcServer`.
pub record Hooks : Type 0 where
  pub welcome_message : Text
  pub privmsg_hook : UserRef → Text → Text → IrcServer → IrcServer
  pub user_logged_in : ℕ → IrcServer → IrcServer
  pub user_left : IrcServer → IrcServer

-- The parameters of a handler.
abbrev pub params_of : Message → List Text
params_of m =
    if same m.trailing [] then split_space m.params else split_space m.params ++ (m.trailing ∷ [])

abbrev pub param : ℕ → List Text → Text
param n [] = []
param zero (p ∷ ps) = p
param (suc n) (p ∷ ps) = param n ps

abbrev pub is_channel_target : Text → Bool
is_channel_target [] = false
is_channel_target (c ∷ cs) = c == 35

abbrev privmsg_text : Text → Text → Text
privmsg_text target text = args (codes "PRIVMSG %1 :%2") (target ∷ text ∷ [])

unfoldable pub message_nicks : UserRef → Text → Text → List ℕ → IrcServer → IrcServer
message_nicks r target text [] s = s
message_nicks r target text (c ∷ cs) s = message_nicks r target text cs (
    if same (nick_of (client c) s) target
    then reply_as (get_prefix r s) c (privmsg_text target text) s
    else s)

-- `IrcServer::privmsg` but for the virtual method. The first character of an empty target is read
-- behind its end; it is no `#` in a release build.
unfoldable pub relay : UserRef → Text → Text → IrcServer → IrcServer
relay r target text s =
    if is_channel_target target
    then (let (ch, s') = get_channel target s in
        channel_message ch (privmsg_text target text) r false s')
    else message_nicks r target text s.clients s

unfoldable pub topic_reply : (ℕ → Text) → ℕ → Text → IrcChannel → IrcServer → IrcServer
topic_reply host c name ch s =
    if same ch.topic []
    then reply_code host 331 c
        (args (codes "%1 %2 :%3") (nick_of (client c) s ∷ name ∷ codes "No topic is set" ∷ [])) s
    else reply_code host 332 c
        (args (codes "%1 %2 :%3") (nick_of (client c) s ∷ name ∷ ch.topic ∷ [])) s

-- A connection joins the channel that it was shown by `getChannel`; the object is read again
-- behind the signal.
unfoldable pub join_channel : Qt → ℕ → Text → IrcServer → IrcServer
join_channel qt c name s =
    let s1 = update_channel name (add_member (client c) []) s in
    let s2 = joined (client c) name s1 in
    let s3 = reply qt.host c (args (codes "MODE %1 +ns") (name ∷ [])) s2 in
    let (ch, s4) = get_channel name s3 in
    let s5 = topic_reply qt.host c name ch s4 in
    let nick = nick_of (client c) s5 in
    let s6 =
      reply_code qt.host 353 c
        (args (codes "%1 @ %2 :%3") (nick ∷ name ∷ get_member_list_string qt.is_space s5 ch ∷ []))
        s5 in
    reply_code qt.host 366 c
      (args (codes "%1 %2 :%3") (nick ∷ name ∷ codes "End of names list" ∷ [])) s6

unfoldable pub join : Qt → ℕ → Text → IrcServer → IrcServer
join qt c name s =
    if is_channel_name name
    then (let (ch, s') = get_channel name s in
        if has_member (nick_of (client c) s') s' ch then s' else join_channel qt c name s')
    else reply_code qt.host 403 c
        (args (codes "%1 %2 :No such channel") (nick_of (client c) s ∷ name ∷ [])) s

abbrev pub new_connection_object : Text → Text → IrcConnection
new_connection_object password hostname = record {
  who = record new_user { hostname = hostname };
  have_nick = false;
  have_user = false;
  have_pass = same password [];
  welcome_sent = false;
}

-- An address that is in use is not given to a new connection.
unfoldable pub new_connection : Qt → ℕ → IrcServer → IrcServer
new_connection qt c s = if is_some (find c s.connections) then s else record s {
  connections = put c (new_connection_object s.password (qt.host c)) s.connections;
  clients = c ∷ s.clients;
}

abbrev pub with_pass : IrcConnection → IrcConnection
with_pass o = record o { have_pass = true }

abbrev pub with_nick : IrcConnection → IrcConnection
with_nick o = record o { have_nick = true }

abbrev pub with_user : Text → Text → IrcConnection → IrcConnection
with_user user realname o = record o {
  who = record o.who { user = user; realname = realname };
  have_user = true;
}

abbrev pub with_welcome : IrcConnection → IrcConnection
with_welcome o = record o { welcome_sent = true }

abbrev pub welcome_of : ℕ → IrcServer → Bool
welcome_of c s = elim (find c s.connections) [ none ↦ false | some o ↦ o.welcome_sent ]

abbrev pub has_pass : ℕ → IrcServer → Bool
has_pass c s = elim (find c s.connections) [ none ↦ false | some o ↦ o.have_pass ]

abbrev pub has_nick : ℕ → IrcServer → Bool
has_nick c s = elim (find c s.connections) [ none ↦ false | some o ↦ o.have_nick ]
