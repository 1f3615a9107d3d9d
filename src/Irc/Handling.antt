-- ===== src/Irc/Handling.antt =====
-- A property of the server that its parts keep is kept by a line (src/irc/IrcConnection.cpp),
-- whatever the virtual methods do that keep their own promise.
pub mod Ricochet
pub mod Lines
use ricochet_irc.Prelude.{
  ℕ, ◌≡◌, refl, Bool, true, false, not, ◌&&◌, ◌||◌, List, [], ◌∷◌, Option, none, some, find,
  Entries-put, Entries-find, Entries, put, codes, same, ltb, length, ◌==◌, if◌then◌else◌, if_both,
  if_cases, option_both, is_some, arith,
}
use ricochet_irc.Connection.State.{Text}
use ricochet_irc.Irc.Texts.{is_nickname, is_user_name, is_realname, is_channel_name, args}
use ricochet_irc.Irc.State.{
  UserRef, client, IrcConnection, IrcServer, Call, close, start_tor, send_to_contact,
  create_request, delete_contact, set_nickname, accept_request, reject_request, call, reply_code,
  is_logged_in, update_connection, nick_of,
}
use ricochet_irc.Irc.Channels.{find_user, with_name, set_nick, rename, broadcast}
use ricochet_irc.Irc.Lines.{
  privmsg, check_login, handle_pass, handle_nick, handle_user, handle_join, handle_privmsg,
  handle_part, handle_ping, handle_quit, command_func, run_func, guarded, handle_message,
  handle_line, reply_and_close,
}
use ricochet_irc.Irc.Users.{
  with_pass, with_nick, with_user, with_welcome, Qt, Hooks, Message, params_of, param, relay,
  welcome_of, has_pass, has_nick, new_connection, new_connection_object,
}
use ricochet_irc.Irc.Evolution.{Policy, Evolves, is_order, still, next}
use ricochet_irc.Irc.Evolution.Relay.{
  write-Evolves, close-Evolves, broadcast-Evolves, relay-Evolves, join-Evolves, part-Evolves,
  quit-Evolves,
}

-- What `IrcServer` expects of a subclass: a message of a connection is sent on for that connection,
-- and other orders take the permission.
pub record Lawful (hooks : Hooks) (p : Policy) : Type 0 where
  pub privmsg_hook :
      (c : ℕ) (target text : Text) (s : IrcServer)
      → ((k : ℕ) → p.Permits (send_to_contact (some c) k text))
      → ((k : Call) → is_order k ≡ true → p.Permits k)
      → Evolves p s (hooks.privmsg_hook (client c) target text s)
  pub user_logged_in :
      (c : ℕ) (s : IrcServer)
      → p.Permits start_tor
      → ((d : ℕ) → (c == d) ≡ false → p.Ends d)
      → p.Admits (client c)
      → Evolves p s (hooks.user_logged_in c s)

-- What a property must keep besides an evolution, and what it must say of whoever is logged in.
pub record Invariant (p : Policy) (S : IrcServer → Type 0) : Type 0 where
  pub evolve : {s t : IrcServer} → S s → Evolves p s t → S t
  pub admits : (c : ℕ) (s : IrcServer) → S s → is_logged_in c s ≡ true → p.Admits (client c)
  pub own :
      (c : ℕ) (s : IrcServer)
      → S s
      → is_logged_in c s ≡ true
      → (text : Text) (k : ℕ) → p.Permits (send_to_contact (some c) k text)
  pub orders :
      (c : ℕ) (s : IrcServer)
      → S s
      → is_logged_in c s ≡ true
      → (k : Call) → is_order k ≡ true
      → p.Permits k
  pub welcome : (c : ℕ) (s : IrcServer) → S s → S (update_connection c with_welcome s)
  pub new_name :
      (c : ℕ) (nick : Text) (s t : IrcServer)
      → S s
      → find_user nick s ≡ false
      → Evolves p s t
      → S (update_connection c (with_name nick) t)

-- The flags that a line sets.
pub record Registers (S : IrcServer → Type 0) (c : ℕ) (m : Message) : Type 0 where
  pub pass :
      (s : IrcServer)
      → S s
      → same m.command (codes "PASS") ≡ true
      → same s.password (param 0 (params_of m)) ≡ true
      → S (update_connection c with_pass s)
  pub nick :
      (s : IrcServer)
      → S s
      → same m.command (codes "NICK") ≡ true
      → is_nickname (param 0 (params_of m)) ≡ true
      → S (update_connection c with_nick s)
  pub user :
      (s : IrcServer)
      → S s
      → same m.command (codes "USER") ≡ true
      → (is_user_name (param 0 (params_of m)) && is_realname (param 3 (params_of m))) ≡ true
      → S (update_connection c (with_user (param 0 (params_of m)) (param 3 (params_of m))) s)

module _ (qt : Qt) (hooks : Hooks) (p : Policy) (S : IrcServer → Type 0) (lawful : Lawful hooks p)
    (inv : Invariant p S) (ends : (d : ℕ) → p.Ends d) where
  pub reply-Kept :
      (command c : ℕ) (t : Text) (s : IrcServer) → S s → S (reply_code qt.host command c t s)
  reply-Kept command c t s g = inv.evolve g (write-Evolves p c _ s)

  reply_and_close-Kept :
      (command c : ℕ) (t : Text) (s : IrcServer) → S s → S (reply_and_close qt hooks command c t s)
  reply_and_close-Kept command c t s g =
      inv.evolve g (next p (write-Evolves p c _ s) (close-Evolves p c _))

  check_login-Kept : (c : ℕ) (s : IrcServer) → S s → S (check_login qt hooks c s)
  unfolding check_login
  check_login-Kept c s g =
      if_cases S (is_logged_in c s && not (welcome_of c s)) _ s
        (λ e.
          let here : is_logged_in c s ≡ true = ground arith in
          inv.welcome c _ (
            inv.evolve g (
              next p (next p (write-Evolves p c _ s) (write-Evolves p c _ _)) (
                lawful.user_logged_in c _ (inv.orders c s g here start_tor refl) (λ d _. ends d)
                  (inv.admits c s g here)))))
        (λ e. g)

  pub handle_pass-Kept :
      (c : ℕ) (params : List Text) (s : IrcServer)
      → S s
      → (same s.password (param 0 params) ≡ true → S (update_connection c with_pass s))
      → S (handle_pass qt hooks c params s)
  unfolding handle_pass
  handle_pass-Kept c params s g sent =
      if_both S _ _ _ (reply-Kept 421 c (codes "Expected argument.") s g) (
        if_both S _ _ _ (check_login-Kept c s g) (
          if_cases S (same s.password (param 0 params)) _ _
            (λ e. check_login-Kept c (update_connection c with_pass s) (sent e))
            (λ e. reply_and_close-Kept 464 c (codes "Invalid password.") s g)))

  abbrev renamed : Text → Text
  renamed nick = args (codes "NICK :%1") (nick ∷ [])

  rename-Kept :
      (c : ℕ) (nick : Text) (s : IrcServer) → S s → S (rename qt.host (some c) (client c) nick s)
  unfolding rename
  rename-Kept c nick s g =
      if_cases S (find_user nick s) _ _ (λ e. reply-Kept 433 c _ s g)
        (λ e.
          inv.new_name c nick s (broadcast (client c) (renamed nick) s) g e
            (broadcast-Evolves p (client c) (renamed nick) s))

  pub handle_nick-Kept :
      (c : ℕ) (params : List Text) (s : IrcServer)
      → S s
      → ((t : IrcServer)
          → S t
          → is_nickname (param 0 params) ≡ true
          → S (update_connection c with_nick t))
      → S (handle_nick qt hooks c params s)
  unfolding handle_nick
  handle_nick-Kept c params s g sent =
      let s' = rename qt.host (some c) (client c) (param 0 params) s in
      let g' : S s' = rename-Kept c (param 0 params) s g in
      if_both S _ _ _ (reply-Kept 421 c (codes "Expected argument.") s g) (
        if_cases S (not (is_nickname (param 0 params))) _ _
          (λ e. reply-Kept 432 c (codes "Invalid nickname.") s g)
          (λ e.
            if_both S (has_nick c s') s' _ g'
              (check_login-Kept c (update_connection c with_nick s') (sent s' g' (ground arith)))))

  pub handle_user-Kept :
      (c : ℕ) (params : List Text) (s : IrcServer)
      → S s
      → ((is_user_name (param 0 params) && is_realname (param 3 params)) ≡ true
          → S (update_connection c (with_user (param 0 params) (param 3 params)) s))
      → S (handle_user qt hooks c params s)
  unfolding handle_user
  handle_user-Kept c params s g sent =
      if_both S _ _ _ (reply-Kept 421 c (codes "Expected argument.") s g) (
        if_cases S (not (is_user_name (param 0 params)))
          (reply_and_close qt hooks 421 c (codes "Invalid user name.") s)
          (if not (is_realname (param 3 params))
            then reply_and_close qt hooks 421 c (codes "Invalid real name.") s
            else check_login qt hooks c
                (update_connection c (with_user (param 0 params) (param 3 params)) s))
          (λ e. reply_and_close-Kept 421 c (codes "Invalid user name.") s g)
          (λ e.
            if_cases S (not (is_realname (param 3 params)))
              (reply_and_close qt hooks 421 c (codes "Invalid real name.") s)
              (check_login qt hooks c
                (update_connection c (with_user (param 0 params) (param 3 params)) s))
              (λ e'. reply_and_close-Kept 421 c (codes "Invalid real name.") s g)
              (λ e'.
                check_login-Kept c
                  (update_connection c (with_user (param 0 params) (param 3 params)) s)
                  (sent (ground arith)))))
