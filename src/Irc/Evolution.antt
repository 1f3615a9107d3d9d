-- ===== src/Irc/Evolution.antt =====
-- What the operations of the IRC server leave as it is: the connections, the clients but for those
-- that are ended, and of members and calls what a policy says (src/irc/IrcServer.cpp).
pub mod Relay
pub mod Control
pub mod Commands
pub mod Slots
use ricochet_irc.Prelude.{
  ℕ, ◌≡◌, refl, ◌∙◌, Bool, true, false, ◌||◌, ◌⊎◌, inl, inr, List, [], ◌∷◌, ◌++◌, Option, none,
  some, Dict, find, if◌then◌else◌, ◌==◌, All, option_both, arith,
}
use ricochet_irc.Connection.State.{Text}
use ricochet_irc.Irc.State.{
  UserRef, client, virtual, IrcConnection, IrcChannel, IrcServer, Call, write, close, start_tor,
  stop_tor, null_pointer, send_to_contact, create_request, delete_contact, set_nickname,
  accept_request, reject_request, call, same_user,
}
use ricochet_irc.Irc.Channels.{
  put_member, drop_member, with_topic, add_member, remove_member, channel_named, change_channel,
  empty_channel, update_channel, get_channel, remove_everywhere, leave_channels,
}

-- Writing to a socket, closing it, stopping Tor, and the control user's own messages; a null
-- pointer is no order to anybody.
abbrev pub is_usual : Call → Bool
is_usual (write c t) = true
is_usual (close c) = true
is_usual stop_tor = true
is_usual null_pointer = true
is_usual (send_to_contact none k t) = true
is_usual _ = false

-- Orders to Tor and to libtego that are no messages.
abbrev pub is_order : Call → Bool
is_order start_tor = true
is_order (create_request i n m) = true
is_order (delete_contact k) = true
is_order (set_nickname k n) = true
is_order (accept_request i n) = true
is_order (reject_request i) = true
is_order _ = false

-- Who may be in a channel, what the server may do, and which clients it may end.
pub record Policy : Type 1 where
  pub Admits : UserRef → Type 0
  pub Permits : Call → Type 0
  pub Ends : ℕ → Type 0
  pub usual : (k : Call) → is_usual k ≡ true → Permits k

abbrev pub Guests : (UserRef → Type 0) → List IrcChannel → Type 0
Guests Admits chs =
    All (λ (ch : IrcChannel). All (λ (m : UserRef × Text). Admits m.0) ch.members) chs

abbrev pub is_listed : ℕ → List ℕ → Bool
is_listed c [] = false
is_listed c (d ∷ ds) = (d == c) || is_listed c ds

pub record Evolves (p : Policy) (s t : IrcServer) : Type 0 where
  pub password : t.password ≡ s.password
  pub connections : t.connections ≡ s.connections
  pub clients : (c : ℕ) → is_listed c t.clients ≡ true → is_listed c s.clients ≡ true
  pub kept : (c : ℕ) → is_listed c s.clients ≡ true → (is_listed c t.clients ≡ true) ⊎ p.Ends c
  pub members : Guests p.Admits s.channels → Guests p.Admits t.channels
  pub calls : All p.Permits s.calls → All p.Permits t.calls

module _ (p : Policy) where
  pub still : (s : IrcServer) → Evolves p s s
  still s = record {
    password = refl;
    connections = refl;
    clients = λ c h. h;
    kept = λ c h. inl h;
    members = λ h. h;
    calls = λ h. h;
  }

  pub next : {s t u : IrcServer} → Evolves p s t → Evolves p t u → Evolves p s u
  next e f = record {
    password = f.password ∙ e.password;
    connections = f.connections ∙ e.connections;
    clients = λ c h. e.clients c (f.clients c h);
    kept = λ c h. elim (e.kept c h) [ inl k ↦ f.kept c k | inr k ↦ inr k ];
    members = λ h. f.members (e.members h);
    calls = λ h. f.calls (e.calls h);
  }

  pub call-Evolves : (k : Call) (s : IrcServer) → p.Permits k → Evolves p s (call k s)
  call-Evolves k s ok = record {
    password = refl;
    connections = refl;
    clients = λ c h. h;
    kept = λ c h. inl h;
    members = λ h. h;
    calls = λ h. (ok, h);
  }

  pub channels-Evolve :
      (s : IrcServer) (chs : List IrcChannel)
      → (Guests p.Admits s.channels → Guests p.Admits chs)
      → Evolves p s (record s { channels = chs })
  channels-Evolve s chs f = record {
    password = refl;
    connections = refl;
    clients = λ c h. h;
    kept = λ c h. inl h;
    members = f;
    calls = λ h. h;
  }

abbrev pub MemberList : (UserRef → Type 0) → List (UserRef × Text) → Type 0
MemberList Admits ms = All (λ (m : UserRef × Text). Admits m.0) ms

module _ (Admits : UserRef → Type 0) where
  put_member-All :
      (r : UserRef) (flags : Text) (ms : List (UserRef × Text))
      → Admits r
      → MemberList Admits ms
      → MemberList Admits (put_member r flags ms)
  put_member-All r flags [] ok h = (ok, h)
  put_member-All r flags ((q, g) ∷ ms) ok h = ground (arith, put_member-All r flags ms ok h.1)

  drop_member-All :
      (r : UserRef) (ms : List (UserRef × Text))
      → MemberList Admits ms
      → MemberList Admits (drop_member r ms)
  drop_member-All r [] h = h
  drop_member-All r ((q, g) ∷ ms) h = ground (arith, drop_member-All r ms h.1)

  change_channel-Guests :
      (name : Text) (f : IrcChannel → IrcChannel) (chs : List IrcChannel)
      → ((ch : IrcChannel) → MemberList Admits ch.members → MemberList Admits (f ch).members)
      → Guests Admits chs
      → Guests Admits (change_channel name f chs)
  change_channel-Guests name f [] k h = h
  change_channel-Guests name f (ch ∷ chs) k h =
      ground (arith, k ch, change_channel-Guests name f chs k h.1)

  remove_everywhere-Guests :
      (r : UserRef) (chs : List IrcChannel)
      → Guests Admits chs
      → Guests Admits (remove_everywhere r chs)
  remove_everywhere-Guests r [] h = h
  remove_everywhere-Guests r (ch ∷ chs) h =
      (drop_member-All r ch.members h.0, remove_everywhere-Guests r chs h.1)

module _ (p : Policy) where
  pub add_member-Evolves :
      (name : Text) (r : UserRef) (flags : Text) (s : IrcServer)
      → p.Admits r
      → Evolves p s (update_channel name (add_member r flags) s)
  add_member-Evolves name r flags s ok = channels-Evolve p s _ (
      change_channel-Guests p.Admits name (add_member r flags) s.channels
        (λ (ch : IrcChannel). put_member-All p.Admits r flags ch.members ok))

  pub remove_member-Evolves :
      (name : Text) (r : UserRef) (s : IrcServer)
      → Evolves p s (update_channel name (remove_member r) s)
  remove_member-Evolves name r s = channels-Evolve p s _ (
      change_channel-Guests p.Admits name (remove_member r) s.channels
        (λ (ch : IrcChannel). drop_member-All p.Admits r ch.members))

  pub topic-Evolves :
      (name topic : Text) (s : IrcServer) → Evolves p s (update_channel name (with_topic topic) s)
  topic-Evolves name topic s =
      channels-Evolve p s _ (
        change_channel-Guests p.Admits name (with_topic topic) s.channels
          (λ (ch : IrcChannel) h. h))

  pub leave_channels-Evolves : (r : UserRef) (s : IrcServer) → Evolves p s (leave_channels r s)
  leave_channels-Evolves r s =
      channels-Evolve p s _ (remove_everywhere-Guests p.Admits r s.channels)

  pub get_channel-Evolves : (name : Text) (s : IrcServer) → Evolves p s (get_channel name s).1
  unfolding get_channel
  get_channel-Evolves name s =
      elim (channel_named name s.channels)
        as (λ o.
          Evolves p s
            (elim o as (λ _. IrcChannel × IrcServer) [
              | some ch ↦ (ch, s)
              | none ↦ (empty_channel name, record s { channels = empty_channel name ∷ s.channels })
            ]).1) [ some ch ↦ still p s | none ↦ channels-Evolve p s _ (λ h. (tt, h)) ]
