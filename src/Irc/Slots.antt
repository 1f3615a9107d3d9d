-- ===== src/Irc/Slots.antt =====
-- The slots on the signals of the contacts and of Tor (src/irc/RicochetIrcServer.cpp).
use ricochet_irc.Prelude.{
  ℕ, suc, Bool, false, List, [], ◌∷◌, ◌++◌, Option, none, some, find, put, codes, length, ltb,
  if◌then◌else◌, same,
}
use ricochet_irc.Connection.State.{Text}
use ricochet_irc.Irc.Texts.{args, split_at}
use ricochet_irc.Irc.State.{
  UserRef, client, virtual, IrcUser, IrcContact, IrcRequest, IrcServer, null_pointer, nick_of,
  get_prefix, call, reply_as,
}
use ricochet_irc.Irc.Channels.{
  add_member, get_member, get_channel, update_channel, joined, set_member_flags, set_topic,
}
use ricochet_irc.Irc.Control.{Setup, ricochet_user, echo, highlight}

module _ (setup : Setup) where
  abbrev pub flags_of_status : Bool → Text
  flags_of_status is_online = if is_online then codes "+v" else codes "-v"

  -- A new user for a contact.
  unfoldable pub add_contact_user : IrcContact → IrcServer → IrcServer
  add_contact_user k s =
      let v = s.next_virtual in
      let u : IrcUser = record {
        nick = k.nickname;
        user = k.nickname;
        hostname = k.contact_id;
        realname = [];
      } in
      let s1 = record s { virtual_users = put v u s.virtual_users; next_virtual = suc v } in
      let s2 = update_channel setup.control_channel_name (add_member (virtual v) (codes "+v")) s1 in
      let s3 = joined (virtual v) setup.control_channel_name s2 in
      record s3 { usermap = put k.key v s3.usermap; virtual_clients = v ∷ s3.virtual_clients }

  abbrev pub found_or : UserRef → Option UserRef → UserRef
  found_or r none = r
  found_or r (some q) = q

  abbrev pub user_for : IrcContact → Option UserRef → IrcServer → IrcServer
  user_for k none s = add_contact_user k s
  user_for k (some r) s = s

  -- `is_online` says whether the status is Online or Offline; with another one, `none`, the flags
  -- stay as they are.
  unfoldable pub on_contact_status_changed : IrcContact → Option Bool → IrcServer → IrcServer
  on_contact_status_changed k status s =
      let name = setup.control_channel_name in
      let (ch, s1) = get_channel name s in
      let found = get_member k.nickname s1 ch in
      let s2 = user_for k found s1 in
      elim status [
        | none ↦ s2
        | some is_online ↦
            set_member_flags name (found_or (virtual s1.next_virtual) found)
              (flags_of_status is_online) s2
      ]

  abbrev pub all_offline : List IrcContact → IrcServer → IrcServer
  all_offline [] s = s
  all_offline (k ∷ ks) s = all_offline ks (on_contact_status_changed k (some false) s)

  unfoldable pub tor_running_changed : Text → IrcServer → IrcServer
  tor_running_changed running s =
      if ltb 0 (length s.clients)
      then (let s1 = echo setup (codes "torManager->running() == " ++ running) s in
          if same running (codes "Yes") then all_offline s1.contacts s1 else s1)
      else s

  unfoldable pub on_tor_control_status_changed : Bool → IrcServer → IrcServer
  on_tor_control_status_changed is_connected s =
      if is_connected
      then set_topic setup.control_channel_name ricochet_user setup.contact_id s
      else s

  abbrev pub write_line : UserRef → Text → List ℕ → IrcServer → IrcServer
  write_line r line [] s = s
  write_line r line (c ∷ cs) s = write_line r line cs (
      reply_as (get_prefix r s) c (args (codes "PRIVMSG %1 :%2") (nick_of (client c) s ∷ line ∷ []))
        s)

  -- A line for every client; without a user for the contact the pointer is null.
  abbrev pub write_lines : Option ℕ → List Text → IrcServer → IrcServer
  write_lines user [] s = s
  write_lines none (line ∷ lines) s =
      write_lines none lines (if ltb 0 (length s.clients) then call null_pointer s else s)
  write_lines (some v) (line ∷ lines) s =
      write_lines (some v) lines (write_line (virtual v) line s.clients s)

  -- One round of `onUnreadCountChanged`: the first message of the conversation of a contact, which
  -- is then cleared.
  unfoldable pub forward_message : ℕ → Bool → Text → IrcServer → IrcServer
  forward_message key is_outgoing text s =
      if is_outgoing then s else write_lines (find key s.usermap) (split_at 10 text) s

  unfoldable pub request_added : IrcRequest → IrcServer → IrcServer
  request_added r s =
      let notice = args (codes "Incoming contact request from: %1") (r.sender_id ∷ []) in
      let more = args (codes " (message: %1)") (r.message ∷ []) in
      echo setup (if ltb 0 (length r.message) then notice ++ more else notice) (highlight setup s)
