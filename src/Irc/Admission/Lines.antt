-- ===== src/Irc/Admission/Lines.antt =====
-- The admission is a property that lines keep (src/irc/IrcConnection.cpp).
use ricochet_irc.Prelude.{
  ℕ, ◌≡◌, refl, ap, sym, ◌∙◌, Bool, true, false, List, ◌∷◌, none, some, ==_refl, arith,
}
use ricochet_irc.Connection.State.{Text}
use ricochet_irc.Irc.State.{
  IrcConnection, Call, start_tor, create_request, delete_contact, set_nickname, accept_request,
  reject_request,
}
use ricochet_irc.Irc.Channels.{with_name}
use ricochet_irc.Irc.Users.{
  Qt, Message, params_of, param, with_pass, with_nick, with_user, with_welcome,
}
use ricochet_irc.Irc.Events.{Event, line}
use ricochet_irc.Irc.Evolution.{is_order}
use ricochet_irc.Irc.Handling.{Invariant, Registers}
use ricochet_irc.Irc.Admission.{
  is_password, is_nick_command, is_user_command, has_sent, IsAdmitted, Allowed, policy, Shown,
  Sound, evolve-Sound, update-Sound, logged_in-IsAdmitted,
}

-- A line with the command has been sent by the connection that it came from.
sent_here :
    (qt : Qt) (ok : Text → List Text → Bool) (c : ℕ) (text : Text) (es : List Event) (m : Message)
    → qt.match_message text ≡ some m
    → ok m.command (params_of m) ≡ true
    → has_sent qt ok (line c text ∷ es) c ≡ true
sent_here qt ok c text es m e h = simp (
  ==_refl c,
  ap (λ o. elim o as (λ _. Bool) [ none ↦ false | some n ↦ ok n.command (params_of n) ]) e,
  h,
)

module _ (qt : Qt) (password : Text) (es : List Event) where
  ordered :
      (c : ℕ)
      → IsAdmitted qt password es c
      → (k : Call) → is_order k ≡ true
      → Allowed qt password es k
  ordered c a start_tor o = (c, a)
  ordered c a (create_request i n m) o = (c, a)
  ordered c a (delete_contact k) o = (c, a)
  ordered c a (set_nickname k n) o = (c, a)
  ordered c a (accept_request i n) o = (c, a)
  ordered c a (reject_request i) o = (c, a)
  ordered c a k o = absurd (ground arith)

  -- The flags say as much as before.
  same_flags :
      (f : IrcConnection → IrcConnection)
      → ((o : IrcConnection) → (f o).have_pass ≡ o.have_pass)
      → ((o : IrcConnection) → (f o).have_nick ≡ o.have_nick)
      → ((o : IrcConnection) → (f o).have_user ≡ o.have_user)
      → (c : ℕ) (o : IrcConnection) → Shown qt password es c o
      → Shown qt password es c (f o)
  same_flags f p n u c o h = record {
    passed = λ k. h.passed (sym (p o) ∙ k);
    named = λ k. h.named (sym (n o) ∙ k);
    registered = λ k. h.registered (sym (u o) ∙ k);
  }

  pub Sound-Invariant : Invariant (policy qt password es) (Sound qt password es)
  Sound-Invariant = record {
    evolve = λ g e. evolve-Sound qt password g e;
    admits = logged_in-IsAdmitted qt password;
    own = λ c s g h text k. logged_in-IsAdmitted qt password c s g h;
    orders = λ c s g h. ordered c (logged_in-IsAdmitted qt password c s g h);
    welcome = λ c s g.
        update-Sound qt password c with_welcome s g
          (same_flags with_welcome (λ o. refl) (λ o. refl) (λ o. refl) c);
    new_name = λ c nick s t g e v.
        update-Sound qt password c (with_name nick) t (evolve-Sound qt password g v)
          (same_flags (with_name nick) (λ o. refl) (λ o. refl) (λ o. refl) c);
  }

module _ (qt : Qt) (password : Text) (es : List Event) where
  pub Sound-Registers :
      (c : ℕ) (text : Text) (m : Message)
      → qt.match_message text ≡ some m
      → Registers (Sound qt password (line c text ∷ es)) c m
  Sound-Registers c text m e = record {
    pass = λ s g command word. update-Sound qt password c with_pass s g (λ o h. record {
      passed = λ _.
          sent_here qt (is_password password) c text es m e
            (simp (command, ← g.password_kept, word));
      named = h.named;
      registered = h.registered;
    });
    nick = λ s g command name. update-Sound qt password c with_nick s g (λ o h. record {
      passed = h.passed;
      named = λ _. sent_here qt is_nick_command c text es m e (simp (command, name));
      registered = h.registered;
    });
    user = λ s g command names.
        update-Sound qt password c (with_user (param 0 (params_of m)) (param 3 (params_of m))) s g
          (λ o h. record {
            passed = h.passed;
            named = h.named;
            registered = λ _. sent_here qt is_user_command c text es m e (simp (command, names));
          });
  }
