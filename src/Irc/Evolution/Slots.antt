-- ===== src/Irc/Evolution/Slots.antt =====
-- The slots that change the flags of a member of the control channel
-- (src/irc/RicochetIrcServer.cpp).
use ricochet_irc.Prelude.{
  ℕ, ◌≡◌, refl, Bool, false, List, [], ◌∷◌, ◌++◌, Option, none, some, same, ltb, length, if_both,
  option_both, arith, codes,
}
use ricochet_irc.Connection.State.{Text}
use ricochet_irc.Irc.State.{UserRef, virtual, IrcChannel, IrcContact, IrcRequest, IrcServer}
use ricochet_irc.Irc.Channels.{channel_named, get_channel, member_named, get_member, empty_channel}
use ricochet_irc.Irc.Control.{Setup, echo}
use ricochet_irc.Irc.Slots.{
  on_contact_status_changed, all_offline, tor_running_changed, user_for, found_or, request_added,
}
use ricochet_irc.Irc.Evolution.{
  Policy, Evolves, Guests, MemberList, still, next, get_channel-Evolves,
}
use ricochet_irc.Irc.Evolution.Relay.{set_member_flags-Evolves}
use ricochet_irc.Irc.Evolution.Control.{echo-Evolves, highlight-Evolves}
use ricochet_irc.Irc.Evolution.Commands.{user_for-Evolves}

module _ (Admits : UserRef → Type 0) where
  channel_named-MemberList :
      (name : Text) (chs : List IrcChannel) (ch : IrcChannel)
      → Guests Admits chs
      → channel_named name chs ≡ some ch
      → MemberList Admits ch.members
  channel_named-MemberList name [] ch h e = absurd (cc)
  channel_named-MemberList name (d ∷ ds) ch h e =
      ground (arith, channel_named-MemberList name ds ch h.1)

  member_named-Admits :
      (nick : Text) (s : IrcServer) (ms : List (UserRef × Text)) (r : UserRef)
      → MemberList Admits ms
      → member_named nick s ms ≡ some r
      → Admits r
  member_named-Admits nick s [] r h e = absurd (cc)
  member_named-Admits nick s ((q, g) ∷ ms) r h e =
      ground (arith, member_named-Admits nick s ms r h.1)

  get_channel-MemberList :
      (name : Text) (s : IrcServer)
      → Guests Admits s.channels
      → MemberList Admits (get_channel name s).0.members
  unfolding get_channel
  get_channel-MemberList name s h = by_case (channel_named name s.channels) refl
    where
      by_case :
          (o : Option IrcChannel)
          → channel_named name s.channels ≡ o
          → MemberList Admits
              (elim o as (λ _. IrcChannel × IrcServer) [
                | some ch ↦ (ch, s)
                | none ↦
                    (empty_channel name, record s { channels = empty_channel name ∷ s.channels })
              ]).0.members
      by_case none e = tt
      by_case (some ch) e = channel_named-MemberList name s.channels ch h e

module _ (setup : Setup) (p : Policy) (virtuals : (v : ℕ) → p.Admits (virtual v)) where
  found_or-Admits :
      (nick : Text) (s : IrcServer) (ch : IrcChannel) (v : ℕ)
      → MemberList p.Admits ch.members
      → p.Admits (found_or setup (virtual v) (get_member nick s ch))
  found_or-Admits nick s ch v h = by_case (get_member nick s ch) refl
    where
      by_case :
          (o : Option UserRef) → get_member nick s ch ≡ o → p.Admits (found_or setup (virtual v) o)
      by_case none e = virtuals v
      by_case (some r) e = member_named-Admits p.Admits nick s ch.members r h e

  pub on_contact_status_changed-Evolves :
      (k : IrcContact) (status : Option Bool) (s : IrcServer)
      → Guests p.Admits s.channels
      → Evolves p s (on_contact_status_changed setup k status s)
  unfolding on_contact_status_changed
  on_contact_status_changed-Evolves k status s h =
      let name = setup.control_channel_name in
      let s1 = (get_channel name s).1 in
      let found = get_member k.nickname s1 (get_channel name s).0 in
      next p
        (next p (get_channel-Evolves p name s)
          (user_for-Evolves setup p k found s1 (virtuals s1.next_virtual)))
        (option_both (Evolves p (user_for setup k found s1)) status _ _ (still p _) (λ b e.
          set_member_flags-Evolves p name _ _ _ (
            found_or-Admits k.nickname s1 (get_channel name s).0 s1.next_virtual
              (get_channel-MemberList p.Admits name s h))))

  all_offline-Evolves :
      (ks : List IrcContact) (s : IrcServer)
      → Guests p.Admits s.channels
      → Evolves p s (all_offline setup ks s)
  all_offline-Evolves [] s h = still p s
  all_offline-Evolves (k ∷ ks) s h =
      let e = on_contact_status_changed-Evolves k (some false) s h in
      next p e (all_offline-Evolves ks _ (e.members h))

  pub tor_running_changed-Evolves :
      (running : Text) (s : IrcServer)
      → Guests p.Admits s.channels
      → Evolves p s (tor_running_changed setup running s)
  unfolding tor_running_changed
  tor_running_changed-Evolves running s h =
      let s1 = echo setup (codes "torManager->running() == " ++ running) s in
      let e : Evolves p s s1 = echo-Evolves setup p _ s in
      if_both (Evolves p s) (ltb 0 (length s.clients)) _ _
        (next p e (
          if_both (Evolves p s1) (same running (codes "Yes")) _ _
            (all_offline-Evolves s1.contacts s1 (e.members h)) (still p s1)))
        (still p s)

  pub request_added-Evolves :
      (r : IrcRequest) (s : IrcServer) → Evolves p s (request_added setup r s)
  unfolding request_added
  request_added-Evolves r s = next p (highlight-Evolves setup p s) (echo-Evolves setup p _ _)
