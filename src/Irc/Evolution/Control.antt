-- ===== src/Irc/Evolution/Control.antt =====
-- The control user, the messages for contacts, and logins (src/irc/RicochetIrcServer.cpp).
use ricochet_irc.Prelude.{
  ℕ, ◌≡◌, refl, false, List, [], ◌∷◌, Option, none, some, if◌then◌else◌, ◌==◌, same, if_both,
  if_cases, codes,
}
use ricochet_irc.Connection.State.{Text}
use ricochet_irc.Irc.State.{
  client, IrcChannel, IrcContact, IrcServer, start_tor, stop_tor, null_pointer, send_to_contact,
  call, nick_of,
}
use ricochet_irc.Irc.Channels.{has_member, get_channel, quit, disconnect}
use ricochet_irc.Irc.Control.{
  Setup, ricochet_user, contact_away, message_contacts, handle_pm, echo, echo_lines, error,
  attention, highlight, cmd_help, help_texts, user_left, kill_others, user_logged_in,
}
use ricochet_irc.Irc.Evolution.{Policy, Evolves, still, next, call-Evolves, get_channel-Evolves}
use ricochet_irc.Irc.Evolution.Relay.{
  write-Evolves, relay-Evolves, set_member_flags-Evolves, quit-Evolves, disconnect-Evolves,
  join-Evolves,
}

module _ (setup : Setup) (p : Policy) where
  pub user_left-Evolves : (s : IrcServer) → Evolves p s (user_left setup s)
  unfolding user_left
  user_left-Evolves s =
      if_both (Evolves p s) _ _ _ (call-Evolves p stop_tor s (p.usual stop_tor refl)) (still p s)

  pub kill_others-Evolves :
      (c : ℕ) (ds : List ℕ) (s : IrcServer)
      → ((d : ℕ) → (c == d) ≡ false → p.Ends d)
      → Evolves p s (kill_others setup c ds s)
  unfolding kill_others
  kill_others-Evolves c [] s ends = still p s
  kill_others-Evolves c (d ∷ ds) s ends =
      next p
        (if_cases (Evolves p s) (c == d) s (disconnect (user_left setup) d (quit (client d) s))
          (λ e. still p s)
          (λ e.
            next p (quit-Evolves p (client d) s)
              (disconnect-Evolves p (user_left setup) d _ (ends d e) user_left-Evolves)))
        (kill_others-Evolves c ds _ ends)

  contact_away-Evolves :
      (sender : Option ℕ) (k : IrcContact) (s : IrcServer)
      → Evolves p s (contact_away setup sender k s)
  contact_away-Evolves none k s = call-Evolves p null_pointer s (p.usual null_pointer refl)
  contact_away-Evolves (some c) k s = write-Evolves p c _ s

  message_contacts-Evolves :
      (sender : Option ℕ) (target text : Text) (ks : List IrcContact) (s : IrcServer)
      → ((k : ℕ) → p.Permits (send_to_contact sender k text))
      → Evolves p s (message_contacts setup sender target text ks s)
  unfolding message_contacts
  message_contacts-Evolves sender target text [] s ok = still p s
  message_contacts-Evolves sender target text (k ∷ ks) s ok =
      let s1 = call (send_to_contact sender k.key text) s in
      let sent : Evolves p s s1 = call-Evolves p _ s (ok k.key) in
      next p
        (if_both (Evolves p s) (same k.nickname target)
          (if k.is_online then s1 else contact_away setup sender k s1) s
          (next p sent (
            if_both (Evolves p s1) k.is_online s1 (contact_away setup sender k s1) (still p s1)
              (contact_away-Evolves sender k s1)))
          (still p s))
        (message_contacts-Evolves sender target text ks _ ok)

  pub handle_pm-Evolves :
      (sender : Option ℕ) (target text : Text) (s : IrcServer)
      → ((k : ℕ) → p.Permits (send_to_contact sender k text))
      → Evolves p s (handle_pm setup sender target text s)
  unfolding handle_pm
  handle_pm-Evolves sender target text s ok =
      message_contacts-Evolves sender target text s.contacts s ok

  pub echo-Evolves : (text : Text) (s : IrcServer) → Evolves p s (echo setup text s)
  unfolding echo
  echo-Evolves text s = next p (relay-Evolves p ricochet_user setup.control_channel_name text s) (
      handle_pm-Evolves none setup.control_channel_name text _
        (λ k. p.usual (send_to_contact none k text) refl))

  pub error-Evolves : (text : Text) (s : IrcServer) → Evolves p s (error setup text s)
  unfolding error
  error-Evolves text s = echo-Evolves _ s

  echo_lines-Evolves : (ts : List Text) (s : IrcServer) → Evolves p s (echo_lines setup ts s)
  echo_lines-Evolves [] s = still p s
  echo_lines-Evolves (t ∷ ts) s = next p (echo-Evolves t s) (echo_lines-Evolves ts _)

  attention-Evolves :
      (cc : IrcChannel) (cs : List ℕ) (s : IrcServer) → Evolves p s (attention setup cc cs s)
  attention-Evolves cc [] s = still p s
  attention-Evolves cc (c ∷ cs) s =
      next p
        (if_both (Evolves p s) (has_member (nick_of (client c) s) s cc) (echo setup _ s) s
          (echo-Evolves _ s) (still p s))
        (attention-Evolves cc cs _)

  pub highlight-Evolves : (s : IrcServer) → Evolves p s (highlight setup s)
  unfolding highlight
  highlight-Evolves s = next p (get_channel-Evolves p setup.control_channel_name s) (
      attention-Evolves (get_channel setup.control_channel_name s).0
        (get_channel setup.control_channel_name s).1.clients
        (get_channel setup.control_channel_name s).1)

  pub cmd_help-Evolves : (s : IrcServer) → Evolves p s (cmd_help setup s)
  unfolding cmd_help
  cmd_help-Evolves s = echo_lines-Evolves (help_texts setup) s

  pub user_logged_in-Evolves :
      (c : ℕ) (s : IrcServer)
      → p.Permits start_tor
      → ((d : ℕ) → (c == d) ≡ false → p.Ends d)
      → p.Admits (client c)
      → Evolves p s (user_logged_in setup c s)
  unfolding user_logged_in
  user_logged_in-Evolves c s starts ends ok =
      next p
        (next p
          (next p (join-Evolves p setup.qt c setup.control_channel_name s ok)
            (set_member_flags-Evolves p setup.control_channel_name (client c) (codes "+o") _ ok))
          (cmd_help-Evolves _))
        (if_both (Evolves p _) _ _ _ (call-Evolves p start_tor _ starts)
          (if_both (Evolves p _) _ _ _ (kill_others-Evolves c _ _ ends) (still p _)))
