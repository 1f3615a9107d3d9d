-- ===== src/Irc/Handling/Lines.antt =====
-- The commands of a client that is logged in, and any line (src/irc/IrcConnection.cpp).
use ricochet_irc.Prelude.{
  ℕ, ◌≡◌, true, not, List, Option, some, codes, same, if_both, if_cases, option_both, arith,
}
use ricochet_irc.Connection.State.{Text}
use ricochet_irc.Irc.State.{client, IrcServer, close, call, reply_code, is_logged_in}
use ricochet_irc.Irc.Lines.{
  privmsg, handle_pass, handle_nick, handle_user, handle_join, handle_privmsg, handle_part,
  handle_ping, handle_quit, command_func, run_func, handle_message, handle_line,
}
use ricochet_irc.Irc.Users.{Qt, Hooks, Message, params_of, param}
use ricochet_irc.Irc.Evolution.{Policy, next}
use ricochet_irc.Irc.Evolution.Relay.{
  write-Evolves, close-Evolves, relay-Evolves, join-Evolves, part-Evolves, quit-Evolves,
}
use ricochet_irc.Irc.Handling.{
  Lawful, Invariant, Registers, reply-Kept, handle_pass-Kept, handle_nick-Kept, handle_user-Kept,
}

module _ (qt : Qt) (hooks : Hooks) (p : Policy) (S : IrcServer → Type 0) (lawful : Lawful hooks p)
    (inv : Invariant p S) (ends : (d : ℕ) → p.Ends d) where
  answers : (command c : ℕ) (t : Text) (s : IrcServer) → S s → S (reply_code qt.host command c t s)
  answers = reply-Kept qt hooks p S lawful inv ends

  handle_join-Kept :
      (c : ℕ) (params : List Text) (s : IrcServer) → S s → S (handle_join qt hooks c params s)
  unfolding handle_join
  handle_join-Kept c params s g = if_both S _ _ _ (answers 421 c (codes "Expected argument.") s g) (
      if_cases S (not (is_logged_in c s)) _ _ (λ e. answers 444 c (codes "Access prohibited.") s g)
        (λ e.
          inv.evolve g (join-Evolves p qt c (param 0 params) s (inv.admits c s g (ground arith)))))

  handle_privmsg-Kept :
      (c : ℕ) (params : List Text) (s : IrcServer) → S s → S (handle_privmsg qt hooks c params s)
  unfolding handle_privmsg privmsg
  handle_privmsg-Kept c params s g =
      if_both S _ _ _ (answers 421 c (codes "Expected argument.") s g) (
        if_cases S (not (is_logged_in c s)) _ _
          (λ e. answers 444 c (codes "Access prohibited.") s g)
          (λ e.
            let here : is_logged_in c s ≡ true = ground arith in
            inv.evolve g (
              next p (relay-Evolves p (client c) (param 0 params) (param 1 params) s) (
                lawful.privmsg_hook c (param 0 params) (param 1 params) _
                  (inv.own c s g here (param 1 params)) (inv.orders c s g here)))))

  handle_part-Kept :
      (c : ℕ) (params : List Text) (s : IrcServer) → S s → S (handle_part qt hooks c params s)
  unfolding handle_part
  handle_part-Kept c params s g = if_both S _ _ _ (answers 421 c (codes "Expected argument.") s g) (
      if_both S _ _ _ (answers 444 c (codes "Access prohibited.") s g) (
        if_both S _ _ _ (answers 403 c (codes "Invalid channel name.") s g)
          (inv.evolve g (part-Evolves p (client c) (param 0 params) s))))

  handle_ping-Kept :
      (c : ℕ) (params : List Text) (s : IrcServer) → S s → S (handle_ping qt hooks c params s)
  unfolding handle_ping
  handle_ping-Kept c params s g = inv.evolve g (write-Evolves p c _ s)

  handle_quit-Kept :
      (c : ℕ) (params : List Text) (s : IrcServer) → S s → S (handle_quit qt hooks c params s)
  unfolding handle_quit
  handle_quit-Kept c params s g = inv.evolve g (quit-Evolves p (client c) s)

  abbrev Runs : ℕ → Message → IrcServer → Option (ℕ → List Text → IrcServer → IrcServer) → Type 0
  Runs c m s o = S (run_func qt hooks c m s o)

  guarded-Kept :
      (c : ℕ) (m : Message) (s : IrcServer) (f : ℕ → List Text → IrcServer → IrcServer)
      → S s
      → S (f c (params_of m) s)
      → Runs c m s (some f)
  guarded-Kept c m s f g h =
      if_both S _ _ _ (answers 451 c (codes "User cannot proceed without a password.") s g) h

  pub handle_message-Kept :
      (c : ℕ) (m : Message) (s : IrcServer)
      → S s
      → Registers S c m
      → S (handle_message qt hooks c m s)
  unfolding handle_message command_func
  handle_message-Kept c m s g r =
      let ps = params_of m in
      let R = Runs c m s in
      if_cases R (same m.command (codes "PASS")) _ _
        (λ e.
          guarded-Kept c m s (handle_pass qt hooks) g
            (handle_pass-Kept qt hooks p S lawful inv ends c ps s g (r.pass s g e)))
        (λ _.
          if_cases R (same m.command (codes "NICK")) _ _
            (λ e.
              guarded-Kept c m s (handle_nick qt hooks) g
                (handle_nick-Kept qt hooks p S lawful inv ends c ps s g (λ t h. r.nick t h e)))
            (λ _.
              if_cases R (same m.command (codes "USER")) _ _
                (λ e.
                  guarded-Kept c m s (handle_user qt hooks) g
                    (handle_user-Kept qt hooks p S lawful inv ends c ps s g (r.user s g e)))
                (λ _.
                  if_both R (same m.command (codes "JOIN")) _ _
                    (guarded-Kept c m s (handle_join qt hooks) g (handle_join-Kept c ps s g))
                    (if_both R (same m.command (codes "PING")) _ _
                      (guarded-Kept c m s (handle_ping qt hooks) g (handle_ping-Kept c ps s g))
                      (if_both R (same m.command (codes "PRIVMSG")) _ _
                        (guarded-Kept c m s (handle_privmsg qt hooks) g
                          (handle_privmsg-Kept c ps s g))
                        (if_both R (same m.command (codes "PART")) _ _
                          (guarded-Kept c m s (handle_part qt hooks) g (handle_part-Kept c ps s g))
                          (if_both R (same m.command (codes "QUIT")) _ _
                            (guarded-Kept c m s (handle_quit qt hooks) g
                              (handle_quit-Kept c ps s g))
                            g)))))))

  pub handle_line-Kept :
      (c : ℕ) (text : Text) (s : IrcServer)
      → S s
      → ((m : Message) → qt.match_message text ≡ some m → Registers S c m)
      → S (handle_line qt hooks c text s)
  unfolding handle_line
  handle_line-Kept c text s g r =
      option_both S (qt.match_message text) (call (close c) s) (λ m. handle_message qt hooks c m s)
        (inv.evolve g (close-Evolves p c s)) (λ m e. handle_message-Kept c m s g (r m e))
