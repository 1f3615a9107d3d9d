-- ===== src/Irc/Evolution/Relay.antt =====
-- The relaying of messages, joining, parting and the end of a client (src/irc/IrcServer.cpp,
-- IrcConnection.cpp).
use ricochet_irc.Prelude.{
  ℕ, ◌≡◌, refl, Bool, ◌⊎◌, inl, true, false, List, [], ◌∷◌, none, same, if_both, arith,
}
use ricochet_irc.Connection.State.{Text}
use ricochet_irc.Irc.Texts.{is_channel_name}
use ricochet_irc.Irc.State.{
  UserRef, client, virtual, IrcChannel, IrcServer, Call, write, close, call, reply_as, nick_of,
  get_prefix, is_logged_in,
}
use ricochet_irc.Irc.Channels.{
  get_channel, message_member, message_members, channel_message, broadcast_to, broadcast, joined,
  flags_changed, set_member_flags, topic_changed, set_topic, part, leave_channels, quit, find_user,
  set_nick, rename, remove_client, disconnect,
}
use ricochet_irc.Irc.Users.{
  Qt, message_nicks, relay, topic_reply, join_channel, join, is_channel_target,
}
use ricochet_irc.Irc.Evolution.{
  Policy, Evolves, is_listed, still, next, call-Evolves, add_member-Evolves, remove_member-Evolves,
  topic-Evolves, leave_channels-Evolves, get_channel-Evolves,
}

module _ (p : Policy) where
  -- Whatever is written.
  pub write-Evolves : (c : ℕ) (t : Text) (s : IrcServer) → Evolves p s (call (write c t) s)
  write-Evolves c t s = call-Evolves p (write c t) s (p.usual (write c t) refl)

  pub close-Evolves : (c : ℕ) (s : IrcServer) → Evolves p s (call (close c) s)
  close-Evolves c s = call-Evolves p (close c) s (p.usual (close c) refl)

  message_member-Evolves :
      (msg : Text) (sender : UserRef) (incl : Bool) (r : UserRef) (s : IrcServer)
      → Evolves p s (message_member msg sender incl r s)
  unfolding message_member
  message_member-Evolves msg sender incl (virtual v) s = still p s
  message_member-Evolves msg sender incl (client c) s =
      if_both (Evolves p s) _ _ _ (write-Evolves c _ s) (still p s)

  message_members-Evolves :
      (msg : Text) (sender : UserRef) (incl : Bool) (ms : List (UserRef × Text)) (s : IrcServer)
      → Evolves p s (message_members msg sender incl ms s)
  unfolding message_members
  message_members-Evolves msg sender incl [] s = still p s
  message_members-Evolves msg sender incl ((r, g) ∷ ms) s =
      next p (message_member-Evolves msg sender incl r s)
        (message_members-Evolves msg sender incl ms (message_member msg sender incl r s))

  pub channel_message-Evolves :
      (ch : IrcChannel) (msg : Text) (sender : UserRef) (incl : Bool) (s : IrcServer)
      → Evolves p s (channel_message ch msg sender incl s)
  unfolding channel_message
  channel_message-Evolves ch msg sender incl s =
      message_members-Evolves msg sender incl ch.members s

  broadcast_to-Evolves :
      (r : UserRef) (msg : Text) (cs : List ℕ) (s : IrcServer)
      → Evolves p s (broadcast_to r msg cs s)
  unfolding broadcast_to
  broadcast_to-Evolves r msg [] s = still p s
  broadcast_to-Evolves r msg (c ∷ cs) s =
      next p
        (if_both (Evolves p s) (is_logged_in c s) (reply_as (get_prefix r s) c msg s) s
          (write-Evolves c _ s) (still p s))
        (broadcast_to-Evolves r msg cs _)

  pub broadcast-Evolves :
      (r : UserRef) (msg : Text) (s : IrcServer) → Evolves p s (broadcast r msg s)
  unfolding broadcast
  broadcast-Evolves r msg s = broadcast_to-Evolves r msg s.clients s

  message_nicks-Evolves :
      (r : UserRef) (target text : Text) (cs : List ℕ) (s : IrcServer)
      → Evolves p s (message_nicks r target text cs s)
  unfolding message_nicks
  message_nicks-Evolves r target text [] s = still p s
  message_nicks-Evolves r target text (c ∷ cs) s =
      next p
        (if_both (Evolves p s) (same (nick_of (client c) s) target)
          (reply_as (get_prefix r s) c _ s) s (write-Evolves c _ s) (still p s))
        (message_nicks-Evolves r target text cs _)

  pub relay-Evolves :
      (r : UserRef) (target text : Text) (s : IrcServer) → Evolves p s (relay r target text s)
  unfolding relay
  relay-Evolves r target text s =
      if_both (Evolves p s) (is_channel_target target) _ _
        (next p (get_channel-Evolves p target s)
          (channel_message-Evolves _ _ r false (get_channel target s).1))
        (message_nicks-Evolves r target text s.clients s)

  pub joined-Evolves : (r : UserRef) (name : Text) (s : IrcServer) → Evolves p s (joined r name s)
  unfolding joined
  joined-Evolves r name s =
      next p (get_channel-Evolves p name s)
        (channel_message-Evolves _ _ r true (get_channel name s).1)

  pub set_member_flags-Evolves :
      (name : Text) (r : UserRef) (flags : Text) (s : IrcServer)
      → p.Admits r
      → Evolves p s (set_member_flags name r flags s)
  unfolding set_member_flags flags_changed
  set_member_flags-Evolves name r flags s ok =
      next p (next p (get_channel-Evolves p name s) (add_member-Evolves p name r flags _ ok))
        (channel_message-Evolves _ _ r true _)

  pub set_topic-Evolves :
      (name : Text) (r : UserRef) (topic : Text) (s : IrcServer)
      → Evolves p s (set_topic name r topic s)
  unfolding set_topic topic_changed
  set_topic-Evolves name r topic s =
      next p (next p (get_channel-Evolves p name s) (topic-Evolves p name topic _))
        (broadcast-Evolves r _ _)

  pub part-Evolves : (r : UserRef) (name : Text) (s : IrcServer) → Evolves p s (part r name s)
  unfolding part
  part-Evolves r name s =
      next p (next p (get_channel-Evolves p name s) (channel_message-Evolves _ _ r true _))
        (remove_member-Evolves p name r _)

  pub quit-Evolves : (r : UserRef) (s : IrcServer) → Evolves p s (quit r s)
  unfolding quit
  quit-Evolves r s = next p (broadcast-Evolves r _ s) (leave_channels-Evolves p r _)

  remove_client-listed :
      (c d : ℕ) (ds : List ℕ) → is_listed c (remove_client d ds) ≡ true → is_listed c ds ≡ true
  remove_client-listed c d [] h = h
  remove_client-listed c d (e ∷ ds) h = ground (arith, remove_client-listed c d ds)

  remove_client-kept :
      (c d : ℕ) (ds : List ℕ)
      → p.Ends d
      → is_listed c ds ≡ true
      → (is_listed c (remove_client d ds) ≡ true) ⊎ p.Ends c
  remove_client-kept c d [] e h = inl h
  remove_client-kept c d (x ∷ ds) e h = ground (arith, remove_client-kept c d ds e)

  remove_client-Evolves :
      (c : ℕ) (s : IrcServer)
      → p.Ends c
      → Evolves p s (record s { clients = remove_client c s.clients })
  remove_client-Evolves c s ends = record {
    password = refl;
    connections = refl;
    clients = λ d. remove_client-listed d c s.clients;
    kept = λ d. remove_client-kept d c s.clients ends;
    members = λ h. h;
    calls = λ h. h;
  }

  pub disconnect-Evolves :
      (user_left : IrcServer → IrcServer) (c : ℕ) (s : IrcServer)
      → p.Ends c
      → ((t : IrcServer) → Evolves p t (user_left t))
      → Evolves p s (disconnect user_left c s)
  unfolding disconnect
  disconnect-Evolves user_left c s ends left =
      next p
        (next p
          (next p (leave_channels-Evolves p (client c) s)
            (remove_client-Evolves c (leave_channels (client c) s) ends))
          (left _))
        (close-Evolves c _)

  -- The new name of a user without a connection.
  rename_virtual-Evolves :
      (v : ℕ) (nick : Text) (s : IrcServer) → Evolves p s (set_nick (virtual v) nick s)
  rename_virtual-Evolves v nick s = record {
    password = refl;
    connections = refl;
    clients = λ d h. h;
    kept = λ d h. inl h;
    members = λ h. h;
    calls = λ h. h;
  }

  pub rename-Evolves :
      (host : ℕ → Text) (v : ℕ) (nick : Text) (s : IrcServer)
      → Evolves p s (rename host none (virtual v) nick s)
  unfolding rename
  rename-Evolves host v nick s =
      if_both (Evolves p s) (find_user nick s) _ _
        (call-Evolves p Call.null_pointer s (p.usual Call.null_pointer refl))
        (next p (broadcast-Evolves (virtual v) _ s) (rename_virtual-Evolves v nick _))

  topic_reply-Evolves :
      (host : ℕ → Text) (c : ℕ) (name : Text) (ch : IrcChannel) (s : IrcServer)
      → Evolves p s (topic_reply host c name ch s)
  unfolding topic_reply
  topic_reply-Evolves host c name ch s =
      if_both (Evolves p s) (same ch.topic []) _ _ (write-Evolves c _ s) (write-Evolves c _ s)

  join_channel-Evolves :
      (qt : Qt) (c : ℕ) (name : Text) (s : IrcServer)
      → p.Admits (client c)
      → Evolves p s (join_channel qt c name s)
  unfolding join_channel
  join_channel-Evolves qt c name s ok =
      next p
        (next p
          (next p
            (next p
              (next p
                (next p (add_member-Evolves p name (client c) [] s ok)
                  (joined-Evolves (client c) name _))
                (write-Evolves c _ _))
              (get_channel-Evolves p name _))
            (topic_reply-Evolves qt.host c name _ _))
          (write-Evolves c _ _))
        (write-Evolves c _ _)

  pub join-Evolves :
      (qt : Qt) (c : ℕ) (name : Text) (s : IrcServer)
      → p.Admits (client c)
      → Evolves p s (join qt c name s)
  unfolding join
  join-Evolves qt c name s ok =
      if_both (Evolves p s) (is_channel_name name) _ _
        (next p (get_channel-Evolves p name s) (
          if_both (Evolves p (get_channel name s).1) _ _ _ (still p (get_channel name s).1)
            (join_channel-Evolves qt c name (get_channel name s).1 ok)))
        (write-Evolves c _ s)
