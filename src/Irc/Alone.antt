-- ===== src/Irc/Alone.antt =====
-- The client that logs in is the only one from then on (src/irc/RicochetIrcServer.cpp).
use ricochet_irc.Prelude.{
  ℕ, ◌≡◌, refl, ◌↔◌, ◌⊎◌, inl, inr, true, false, not, ◌&&◌, List, [], ◌∷◌, ltb, length, ◌==◌,
  if◌then◌else◌, if_both, if_cases, arith, Bool-cases, codes,
}
use ricochet_irc.Irc.State.{client, IrcServer, start_tor, call, is_logged_in, update_connection}
use ricochet_irc.Irc.Channels.{set_member_flags, quit, disconnect, remove_client}
use ricochet_irc.Irc.Lines.{check_login}
use ricochet_irc.Irc.Users.{join, welcome_of, with_welcome}
use ricochet_irc.Irc.Control.{Setup, cmd_help, user_left, kill_others, user_logged_in}
use ricochet_irc.Irc.Commands.{ricochet_hooks}
use ricochet_irc.Irc.Evolution.{Policy, Evolves, is_listed, next}
use ricochet_irc.Irc.Evolution.Relay.{join-Evolves, set_member_flags-Evolves}
use ricochet_irc.Irc.Evolution.Control.{
  cmd_help-Evolves, kill_others-Evolves, user_logged_in-Evolves,
}
use ricochet_irc.Irc.Nicknames.{anything, clients-update}

-- All clients but one may be ended.
abbrev others_end : ℕ → Policy
others_end c = record {
  Admits = λ r. Unit;
  Permits = λ k. Unit;
  Ends = λ d. (c == d) ≡ false;
  usual = λ k h. tt;
}

still_listed :
    (c : ℕ) (s t : IrcServer)
    → Evolves (others_end c) s t
    → is_listed c s.clients ≡ true
    → is_listed c t.clients ≡ true
still_listed c s t e h = elim (e.kept c h) [ inl k ↦ k | inr k ↦ absurd (ground arith) ]

remove_client-not_listed : (c : ℕ) (cs : List ℕ) → is_listed c (remove_client c cs) ≡ false
remove_client-not_listed c [] = refl
remove_client-not_listed c (d ∷ ds) = ground (arith, remove_client-not_listed c ds)

module _ (setup : Setup) (c : ℕ) where
  clients-user_left : (s : IrcServer) → (user_left setup s).clients ≡ s.clients
  unfolding user_left
  clients-user_left s =
      if_both (λ (t : IrcServer). t.clients ≡ s.clients) (length s.clients == 0) _ _ refl refl

  clients-disconnect :
      (d : ℕ) (s : IrcServer)
      → (disconnect (user_left setup) d s).clients ≡ remove_client d s.clients
  unfolding disconnect
  clients-disconnect d s = clients-user_left _

  ended : (d : ℕ) (s : IrcServer) → is_listed d (disconnect (user_left setup) d s).clients ≡ false
  ended d s = rw (clients-disconnect d s) (remove_client-not_listed d s.clients)

  -- One round of the loop.
  abbrev round : ℕ → IrcServer → IrcServer
  round x s = if c == x then s else disconnect (user_left setup) x (quit (client x) s)

  round-ends :
      (x d : ℕ) (s : IrcServer)
      → is_listed d (round x s).clients ≡ true
      → (c ≡ d) ⊎ ((x == d) ≡ false)
  round-ends x d s l = elim (Bool-cases (x == d)) [
    | inr b ↦ inr b
    | inl b ↦ elim (Bool-cases (c == x)) [
      | inl a ↦ inl (ground arith)
      | inr a ↦ absurd (ground (arith, ended d (quit (client x) s)))
    ]
  ]

  kill_others-ends :
      (ds : List ℕ) (d : ℕ) (s : IrcServer)
      → is_listed d (kill_others setup c ds s).clients ≡ true
      → (c ≡ d) ⊎ (is_listed d ds ≡ false)
  unfolding kill_others
  kill_others-ends [] d s l = inr refl
  kill_others-ends (x ∷ ds) d s l = elim (kill_others-ends ds d (round x s) l) [
    | inl k ↦ inl k
    | inr k ↦
        elim (round-ends x d s
          ((kill_others-Evolves setup anything c ds (round x s) (λ e b. tt)).clients d l)) [
            | inl j ↦ inl j
            | inr j ↦ inr (ground arith)
          ]
  ]

  only_one :
      (cs : List ℕ) (d : ℕ)
      → (length cs == 1) ≡ true
      → is_listed c cs ≡ true
      → is_listed d cs ≡ true
      → c ≡ d
  only_one [] d one lc ld = absurd (ground arith)
  only_one (x ∷ []) d one lc ld = ground arith
  only_one (x ∷ y ∷ ys) d one lc ld = absurd (ground arith)

  nobody_listed :
      (cs : List ℕ) (d : ℕ)
      → (length cs == 1) ≡ false
      → ltb 1 (length cs) ≡ false
      → is_listed d cs ≡ true
      → c ≡ d
  nobody_listed [] d one more l = absurd (ground arith)
  nobody_listed (x ∷ []) d one more l = absurd (ground arith)
  nobody_listed (x ∷ y ∷ ys) d one more l = absurd (ground arith)

  abbrev AllIs : ℕ → IrcServer → Type 0
  AllIs d u = is_listed d u.clients ≡ true → c ≡ d

  -- Behind the help text.
  abbrev finish : IrcServer → IrcServer
  finish t =
      if length t.clients == 1
      then call start_tor t
      else if ltb 1 (length t.clients)
      then kill_others setup c t.clients t
      else t

  finish-alone :
      (t : IrcServer) (d : ℕ)
      → is_listed c t.clients ≡ true
      → is_listed d (finish t).clients ≡ true
      → c ≡ d
  finish-alone t d lc =
      if_cases (AllIs d) (length t.clients == 1) _ _ (λ one ld. only_one t.clients d one lc ld)
        (λ one.
          if_cases (AllIs d) (ltb 1 (length t.clients)) (kill_others setup c t.clients t) t
            (λ more ld. elim (kill_others-ends t.clients d t ld) [
              | inl k ↦ k
              | inr k ↦ absurd (
                  ground (
                    arith,
                    (kill_others-Evolves setup anything c t.clients t (λ e b. tt)).clients d ld,
                  ))
            ])
            (λ more ld. nobody_listed t.clients d one more ld))

  abbrev greeted : IrcServer → IrcServer
  greeted s =
      let name = setup.control_channel_name in
      cmd_help setup (set_member_flags name (client c) (codes "+o") (join setup.qt c name s))

  greeted-Evolves : (s : IrcServer) → Evolves (others_end c) s (greeted s)
  greeted-Evolves s =
      let p = others_end c in
      let name = setup.control_channel_name in
      next p
        (next p (join-Evolves p setup.qt c name s tt)
          (set_member_flags-Evolves p name (client c) (codes "+o") _ tt))
        (cmd_help-Evolves setup p _)

  user_logged_in-alone :
      (s : IrcServer) (d : ℕ)
      → is_listed c s.clients ≡ true
      → is_listed d (user_logged_in setup c s).clients ≡ true
      → c ≡ d
  unfolding user_logged_in
  user_logged_in-alone s d lc =
      finish-alone (greeted s) d (still_listed c s (greeted s) (greeted-Evolves s) lc)

  user_logged_in-stays :
      (s : IrcServer)
      → is_listed c s.clients ≡ true
      → is_listed c (user_logged_in setup c s).clients ≡ true
  user_logged_in-stays s =
      still_listed c s _ (user_logged_in-Evolves setup (others_end c) c s tt (λ d e. e) tt)

  -- With a flag that is set at the end.
  welcomed_alone :
      (s : IrcServer) (d : ℕ)
      → is_listed c s.clients ≡ true
      → (is_listed d (update_connection c with_welcome (user_logged_in setup c s)).clients ≡ true)
        ↔ (c ≡ d)
  welcomed_alone s d lc =
      let cl = clients-update c with_welcome (user_logged_in setup c s) in
      (
        λ ld. user_logged_in-alone s d lc (rw (← cl) ld),
        λ e. rw (cl, ← e) (user_logged_in-stays s lc),
      )

-- A client that the server knows has sent all that it takes to be logged in, and has not been
-- welcomed. Behind the test of its login it is still a client, and there is no other.
pub check_login-alone :
    (setup : Setup) (c : ℕ) (s : IrcServer) (d : ℕ)
    → is_listed c s.clients ≡ true
    → is_logged_in c s ≡ true
    → welcome_of c s ≡ false
    → (is_listed d (check_login setup.qt (ricochet_hooks setup) c s).clients ≡ true) ↔ (c ≡ d)
unfolding check_login
check_login-alone setup c s d listed logged new =
    if_cases (λ (t : IrcServer). (is_listed d t.clients ≡ true) ↔ (c ≡ d))
      (is_logged_in c s && not (welcome_of c s)) _ _ (λ e. welcomed_alone setup c _ d listed)
      (λ e. absurd (ground arith))
