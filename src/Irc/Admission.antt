-- ===== src/Irc/Admission.antt =====
-- Who may log in to the IRC server, join its channels and give orders: those who have sent the
-- password, a nickname and a user name (src/irc/IrcConnection.cpp).
pub mod Lines
pub mod Histories
use ricochet_irc.Prelude.{
  ℕ, ◌≡◌, refl, Bool, true, false, ◌∙◌, option_both, All-mono, ◌&&◌, ◌||◌, List, [], ◌∷◌, Option,
  none, some, Dict, find, put, Entries, Entries-put, Entries-find, Entries-mono, codes, same, ltb,
  length, ◌==◌, if◌then◌else◌, All, arith,
}
use ricochet_irc.Connection.State.{Text}
use ricochet_irc.Irc.Texts.{is_nickname, is_user_name, is_realname}
use ricochet_irc.Irc.State.{
  UserRef, client, virtual, IrcConnection, IrcChannel, IrcServer, Call, write, close, stop_tor,
  null_pointer, send_to_contact, start_tor, create_request, delete_contact, set_nickname,
  accept_request, reject_request, is_logged_in, connection_logged_in, update_connection,
}
use ricochet_irc.Irc.Users.{Qt, Hooks, params_of, param}
use ricochet_irc.Irc.Events.{Event, line}
use ricochet_irc.Irc.Evolution.{Policy, Evolves, Guests, is_usual}

abbrev pub is_password : Text → Text → List Text → Bool
is_password password command params = same command (codes "PASS") && same password (param 0 params)

abbrev pub is_nick_command : Text → List Text → Bool
is_nick_command command params = same command (codes "NICK") && is_nickname (param 0 params)

abbrev pub is_user_command : Text → List Text → Bool
is_user_command command params =
    same command (codes "USER") && (is_user_name (param 0 params) && is_realname (param 3 params))

-- A line of the connection `c` with such a command and parameters.
abbrev pub sends : Qt → (Text → List Text → Bool) → ℕ → Event → Bool
sends qt ok c (line d text) =
    (c == d) && elim (qt.match_message text) [ none ↦ false | some m ↦ ok m.command (params_of m) ]
sends qt ok c _ = false

abbrev pub any_event : (Event → Bool) → List Event → Bool
any_event f [] = false
any_event f (e ∷ es) = f e || any_event f es

abbrev pub has_sent : Qt → (Text → List Text → Bool) → List Event → ℕ → Bool
has_sent qt ok es c = any_event (sends qt ok c) es

module _ (qt : Qt) (password : Text) where
  -- A connection has sent the password, a valid nickname, and a valid user name.
  pub record IsAdmitted (es : List Event) (c : ℕ) : Type 0 where
    pub passed : has_sent qt (is_password password) es c ≡ true
    pub named : has_sent qt is_nick_command es c ≡ true
    pub registered : has_sent qt is_user_command es c ≡ true

  -- Users without a connection are the server's own.
  abbrev pub Member : List Event → UserRef → Type 0
  Member es (client c) = IsAdmitted es c
  Member es (virtual v) = Unit

  -- A message to a contact is the control user's or from a connection that is admitted; any other
  -- order to Tor or to libtego but to stop takes one that is admitted.
  abbrev pub Allowed : List Event → Call → Type 0
  Allowed es (write c t) = Unit
  Allowed es (close c) = Unit
  Allowed es stop_tor = Unit
  Allowed es null_pointer = Unit
  Allowed es (send_to_contact none k t) = Unit
  Allowed es (send_to_contact (some c) k t) = IsAdmitted es c
  Allowed es _ = (c : ℕ) × IsAdmitted es c

  pub Allowed-usual : (es : List Event) (k : Call) → is_usual k ≡ true → Allowed es k
  Allowed-usual es k h = ground arith

  abbrev pub policy : List Event → Policy
  policy es = record {
    Admits = Member es;
    Permits = Allowed es;
    Ends = λ c. Unit;
    usual = Allowed-usual es;
  }

  -- The flags of a connection tell the truth.
  pub record Shown (es : List Event) (c : ℕ) (o : IrcConnection) : Type 0 where
    pub passed : o.have_pass ≡ true → has_sent qt (is_password password) es c ≡ true
    pub named : o.have_nick ≡ true → has_sent qt is_nick_command es c ≡ true
    pub registered : o.have_user ≡ true → has_sent qt is_user_command es c ≡ true

  pub record Sound (es : List Event) (s : IrcServer) : Type 0 where
    pub password_kept : s.password ≡ password
    pub shown : Entries (Shown es) s.connections
    pub members : Guests (Member es) s.channels
    pub calls : All (Allowed es) s.calls

  module _ {es : List Event} where
    pub evolve-Sound : {s t : IrcServer} → Sound es s → Evolves (policy es) s t → Sound es t
    evolve-Sound g e = record {
      password_kept = e.password ∙ g.password_kept;
      shown = rw (e.connections) g.shown;
      members = e.members g.members;
      calls = e.calls g.calls;
    }

    connections-Sound :
        {s : IrcServer} (m : Dict IrcConnection)
        → Sound es s
        → Entries (Shown es) m
        → Sound es (record s { connections = m })
    connections-Sound m g h = record {
      password_kept = g.password_kept;
      shown = h;
      members = g.members;
      calls = g.calls;
    }

    pub update-Sound :
        (c : ℕ) (f : IrcConnection → IrcConnection) (s : IrcServer)
        → Sound es s
        → ((o : IrcConnection) → Shown es c o → Shown es c (f o))
        → Sound es (update_connection c f s)
    update-Sound c f s g k =
        option_both (Sound es) (find c s.connections) s
          (λ o. record s { connections = put c (f o) s.connections }) g
          (λ o e. connections-Sound (put c (f o) s.connections) g (
            Entries-put (Shown es) c (f o) s.connections
              (k o (Entries-find (Shown es) c s.connections o g.shown e)) g.shown))

    Shown-IsAdmitted :
        (c : ℕ) (o : IrcConnection)
        → Shown es c o
        → (o.have_nick && (o.have_user && o.have_pass)) ≡ true
        → IsAdmitted es c
    Shown-IsAdmitted c o h e = record {
      passed = h.passed (ground arith);
      named = h.named (ground arith);
      registered = h.registered (ground arith);
    }

    -- Whoever is logged in is admitted.
    pub logged_in-IsAdmitted :
        (c : ℕ) (s : IrcServer) → Sound es s → is_logged_in c s ≡ true → IsAdmitted es c
    logged_in-IsAdmitted c s g h = by_case (find c s.connections) refl h
      where
        by_case :
            (o : Option IrcConnection)
            → find c s.connections ≡ o
            → connection_logged_in o ≡ true
            → IsAdmitted es c
        by_case none e k = absurd (cc)
        by_case (some o) e k =
            Shown-IsAdmitted c o (Entries-find (Shown es) c s.connections o g.shown e) k

  later :
      (f : Event → Bool) (e : Event) (es : List Event)
      → any_event f es ≡ true
      → any_event f (e ∷ es) ≡ true
  later f e es h = ground arith

  IsAdmitted-later : (e : Event) (es : List Event) (c : ℕ) → IsAdmitted es c → IsAdmitted (e ∷ es) c
  IsAdmitted-later e es c a = record {
    passed = later _ e es a.passed;
    named = later _ e es a.named;
    registered = later _ e es a.registered;
  }

  Member-later : (e : Event) (es : List Event) (r : UserRef) → Member es r → Member (e ∷ es) r
  Member-later e es (client c) a = IsAdmitted-later e es c a
  Member-later e es (virtual v) a = tt

  Allowed-later : (e : Event) (es : List Event) (k : Call) → Allowed es k → Allowed (e ∷ es) k
  Allowed-later e es (send_to_contact (some c) k t) a = IsAdmitted-later e es c a
  Allowed-later e es (send_to_contact none k t) a = tt
  Allowed-later e es (write c t) a = tt
  Allowed-later e es (close c) a = tt
  Allowed-later e es stop_tor a = tt
  Allowed-later e es null_pointer a = tt
  Allowed-later e es start_tor (d, a) = (d, IsAdmitted-later e es d a)
  Allowed-later e es (create_request i n m) (d, a) = (d, IsAdmitted-later e es d a)
  Allowed-later e es (delete_contact k) (d, a) = (d, IsAdmitted-later e es d a)
  Allowed-later e es (set_nickname k n) (d, a) = (d, IsAdmitted-later e es d a)
  Allowed-later e es (accept_request i n) (d, a) = (d, IsAdmitted-later e es d a)
  Allowed-later e es (reject_request i) (d, a) = (d, IsAdmitted-later e es d a)

  -- Another event takes nothing away.
  pub Sound-later : (e : Event) (es : List Event) (s : IrcServer) → Sound es s → Sound (e ∷ es) s
  Sound-later e es s g = record {
    password_kept = g.password_kept;
    shown =
        Entries-mono (Shown es) (Shown (e ∷ es)) s.connections
          (λ c o h. record {
            passed = λ k. later _ e es (h.passed k);
            named = λ k. later _ e es (h.named k);
            registered = λ k. later _ e es (h.registered k);
          })
          g.shown;
    members =
        All-mono
          (λ (ch : IrcChannel). All-mono (λ (m : UserRef × Text). Member-later e es m.0) ch.members)
          s.channels g.members;
    calls = All-mono (λ k. Allowed-later e es k) s.calls g.calls;
  }
