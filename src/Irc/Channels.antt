-- ===== src/Irc/Channels.antt =====
-- The members of a channel and its topic (src/irc/IrcChannel.cpp), the messages that the server
-- relays (src/irc/IrcServer.cpp), and its list of clients.
use ricochet_irc.Prelude.{
  ℕ, Bool, true, false, not, ◌||◌, List, [], ◌∷◌, ◌++◌, Option, none, some, is_some, put, codes,
  ◌==◌, if◌then◌else◌, same,
}
use ricochet_irc.Connection.State.{Text}
use ricochet_irc.Irc.Texts.{args, trimmed}
use ricochet_irc.Irc.State.{
  UserRef, client, virtual, same_user, IrcConnection, IrcChannel, IrcServer, Call, close, user_at,
  nick_of, get_prefix, is_logged_in, update_connection, call, reply_as, reply_code,
}

-- `QHash::insert` on the members.
abbrev pub put_member : UserRef → Text → List (UserRef × Text) → List (UserRef × Text)
put_member r flags [] = (r, flags) ∷ []
put_member r flags ((q, g) ∷ ms) =
    if same_user q r then (r, flags) ∷ ms else (q, g) ∷ put_member r flags ms

abbrev pub drop_member : UserRef → List (UserRef × Text) → List (UserRef × Text)
drop_member r [] = []
drop_member r ((q, g) ∷ ms) = if same_user q r then drop_member r ms else (q, g) ∷ drop_member r ms

abbrev pub add_member : UserRef → Text → IrcChannel → IrcChannel
add_member r flags ch = record ch { members = put_member r flags ch.members }

-- Nothing in the repository listens to its signal.
abbrev pub remove_member : UserRef → IrcChannel → IrcChannel
remove_member r ch = record ch { members = drop_member r ch.members }

abbrev flags_in : UserRef → List (UserRef × Text) → Text
flags_in r [] = []
flags_in r ((q, g) ∷ ms) = if same_user q r then g else flags_in r ms

abbrev pub get_member_flags_long : UserRef → IrcChannel → Text
get_member_flags_long r ch = flags_in r ch.members

abbrev pub get_member_flags_short : UserRef → IrcChannel → Text
get_member_flags_short r ch =
    let lf = get_member_flags_long r ch in
    if same lf (codes "+v")
    then codes "+"
    else if same lf (codes "-v")
    then []
    else if same lf (codes "+o")
    then codes "@"
    else if same lf (codes "-o")
    then []
    else lf

abbrev pub member_named : Text → IrcServer → List (UserRef × Text) → Option UserRef
member_named nickname s [] = none
member_named nickname s ((r, g) ∷ ms) =
    if same (nick_of r s) nickname then some r else member_named nickname s ms

abbrev pub get_member : Text → IrcServer → IrcChannel → Option UserRef
get_member nickname s ch = member_named nickname s ch.members

abbrev pub has_member : Text → IrcServer → IrcChannel → Bool
has_member nickname s ch = is_some (get_member nickname s ch)

abbrev member_texts : IrcChannel → IrcServer → List (UserRef × Text) → Text
member_texts ch s [] = []
member_texts ch s ((r, g) ∷ ms) =
    (get_member_flags_short r ch ++ nick_of r s ++ codes " ") ++ member_texts ch s ms

abbrev pub get_member_list_string : (ℕ → Bool) → IrcServer → IrcChannel → Text
get_member_list_string is_space s ch = trimmed is_space (member_texts ch s ch.members)

abbrev pub empty_channel : Text → IrcChannel
empty_channel name = record { name = name; members = []; topic = [] }

abbrev pub with_topic : Text → IrcChannel → IrcChannel
with_topic topic ch = record ch { topic = topic }

abbrev pub channel_named : Text → List IrcChannel → Option IrcChannel
channel_named name [] = none
channel_named name (ch ∷ chs) = if same ch.name name then some ch else channel_named name chs

-- Changes the object behind a name.
abbrev pub change_channel : Text → (IrcChannel → IrcChannel) → List IrcChannel → List IrcChannel
change_channel name f [] = []
change_channel name f (ch ∷ chs) =
    if same ch.name name then f ch ∷ chs else ch ∷ change_channel name f chs

abbrev pub update_channel : Text → (IrcChannel → IrcChannel) → IrcServer → IrcServer
update_channel name f s = record s { channels = change_channel name f s.channels }

-- The channel, and the state in which it exists.
unfoldable pub get_channel : Text → IrcServer → IrcChannel × IrcServer
get_channel name s = elim (channel_named name s.channels) [
  | some ch ↦ (ch, s)
  | none ↦ (empty_channel name, record s { channels = empty_channel name ∷ s.channels })
]

-- The body of the loop over the members.
unfoldable pub message_member : Text → UserRef → Bool → UserRef → IrcServer → IrcServer
message_member msg sender include_sender (virtual v) s = s
message_member msg sender include_sender (client c) s =
    if include_sender || not (same (nick_of (client c) s) (nick_of sender s))
    then reply_as (get_prefix sender s) c msg s
    else s

unfoldable pub message_members :
    Text → UserRef → Bool → List (UserRef × Text) → IrcServer → IrcServer
message_members msg sender include_sender [] s = s
message_members msg sender include_sender ((r, g) ∷ ms) s =
    message_members msg sender include_sender ms (message_member msg sender include_sender r s)

unfoldable pub channel_message : IrcChannel → Text → UserRef → Bool → IrcServer → IrcServer
channel_message ch msg sender include_sender s =
    message_members msg sender include_sender ch.members s

unfoldable pub broadcast_to : UserRef → Text → List ℕ → IrcServer → IrcServer
broadcast_to sender msg [] s = s
broadcast_to sender msg (c ∷ cs) s =
    broadcast_to sender msg cs
      (if is_logged_in c s then reply_as (get_prefix sender s) c msg s else s)

unfoldable pub broadcast : UserRef → Text → IrcServer → IrcServer
broadcast sender msg s = broadcast_to sender msg s.clients s

unfoldable pub joined : UserRef → Text → IrcServer → IrcServer
joined r name s =
    let (ch, s') = get_channel name s in
    channel_message ch (args (codes "JOIN %1") (name ∷ [])) r true s'

-- `setMemberFlags` of a channel of the server, with the slot on its signal.
unfoldable pub flags_changed : IrcChannel → UserRef → IrcServer → IrcServer
flags_changed ch r s =
    channel_message ch
      (args (codes "MODE %1 %2 %3") (ch.name ∷ get_member_flags_long r ch ∷ nick_of r s ∷ [])) r
      true s

unfoldable pub set_member_flags : Text → UserRef → Text → IrcServer → IrcServer
set_member_flags name r flags s =
    let (ch, s') = get_channel name s in
    flags_changed (add_member r flags ch) r (update_channel name (add_member r flags) s')

unfoldable pub topic_changed : UserRef → IrcChannel → IrcServer → IrcServer
topic_changed sender ch = broadcast sender (args (codes "TOPIC %1 :%2") (ch.name ∷ ch.topic ∷ []))

unfoldable pub set_topic : Text → UserRef → Text → IrcServer → IrcServer
set_topic name sender topic s =
    let (ch, s') = get_channel name s in
    topic_changed sender (with_topic topic ch) (update_channel name (with_topic topic) s')

unfoldable pub part : UserRef → Text → IrcServer → IrcServer
part r name s =
    let (ch, s') = get_channel name s in
    update_channel name (remove_member r)
      (channel_message ch (args (codes "PART %1") (ch.name ∷ [])) r true s')

abbrev pub remove_everywhere : UserRef → List IrcChannel → List IrcChannel
remove_everywhere r [] = []
remove_everywhere r (ch ∷ chs) = remove_member r ch ∷ remove_everywhere r chs

abbrev pub leave_channels : UserRef → IrcServer → IrcServer
leave_channels r s = record s { channels = remove_everywhere r s.channels }

unfoldable pub quit : UserRef → IrcServer → IrcServer
quit r s = leave_channels r (broadcast r (codes "QUIT :Client quit") s)

abbrev pub client_named : Text → IrcServer → List ℕ → Bool
client_named nickname s [] = false
client_named nickname s (c ∷ cs) =
    same (nick_of (client c) s) nickname || client_named nickname s cs

abbrev virtual_named : Text → IrcServer → List ℕ → Bool
virtual_named nickname s [] = false
virtual_named nickname s (v ∷ vs) =
    same (nick_of (virtual v) s) nickname || virtual_named nickname s vs

-- Is there a user: `findUser(nickname) != Q_NULLPTR`.
unfoldable pub find_user : Text → IrcServer → Bool
find_user nickname s =
    client_named nickname s s.clients || virtual_named nickname s s.virtual_clients

abbrev pub with_name : Text → IrcConnection → IrcConnection
with_name new_nick o = record o { who = record o.who { nick = new_nick } }

abbrev pub set_nick : UserRef → Text → IrcServer → IrcServer
set_nick (client c) new_nick s = update_connection c (with_name new_nick) s
set_nick (virtual v) new_nick s = record s {
  virtual_users = put v (record (user_at (virtual v) s) { nick = new_nick }) s.virtual_users;
}

-- The slot on a connection's signal; without one, `sender()` is another object and the pointer is
-- null.
unfoldable pub rename : (ℕ → Text) → Option ℕ → UserRef → Text → IrcServer → IrcServer
rename host conn r new_nick s =
    if find_user new_nick s
    then elim conn [
      | none ↦ call Call.null_pointer s
      | some c ↦
          reply_code host 433 c
            (args (codes "%1 %2 :Nickname already in use.") (nick_of r s ∷ new_nick ∷ [])) s
    ]
    else set_nick r new_nick (broadcast r (args (codes "NICK :%1") (new_nick ∷ [])) s)

abbrev pub remove_client : ℕ → List ℕ → List ℕ
remove_client c [] = []
remove_client c (d ∷ ds) = if d == c then remove_client c ds else d ∷ remove_client c ds

-- `user_left` is the virtual method `ircUserLeft`.
unfoldable pub disconnect : (IrcServer → IrcServer) → ℕ → IrcServer → IrcServer
disconnect user_left c s =
    let s1 = leave_channels (client c) s in
    let s2 = record s1 { clients = remove_client c s1.clients } in call (close c) (user_left s2)
