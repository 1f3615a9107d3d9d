-- ===== src/Irc/Evolution/Commands.antt =====
-- The commands of the control channel and the slots on the signals of contacts and Tor
-- (src/irc/RicochetIrcServer.cpp).
use ricochet_irc.Prelude.{
  inl, ℕ, ◌≡◌, refl, Bool, true, List, [], ◌∷◌, Option, none, some, find, ltb, same, length,
  if_both, option_both, codes,
}
use ricochet_irc.Connection.State.{Text}
use ricochet_irc.Irc.Texts.{split_at}
use ricochet_irc.Irc.State.{
  send_to_contact, UserRef, virtual, IrcContact, IrcRequest, IrcServer, Call, null_pointer,
  delete_contact, call,
}
use ricochet_irc.Irc.Control.{Setup, echo, error}
use ricochet_irc.Irc.Commands.{
  contact_named, cmd_id, cmd_add, quit_user, drop_virtual, cmd_delete, rename_contact, cmd_rename,
  list_requests, with_request, cmd_request, run_command, parse_command, connection_of, privmsg_hook,
}
use ricochet_irc.Irc.Slots.{
  add_contact_user, user_for, on_tor_control_status_changed, write_line, write_lines,
  forward_message,
}
use ricochet_irc.Irc.Evolution.{
  is_order, Policy, Evolves, still, next, call-Evolves, add_member-Evolves,
}
use ricochet_irc.Irc.Evolution.Relay.{
  write-Evolves, joined-Evolves, set_topic-Evolves, quit-Evolves, rename-Evolves,
}
use ricochet_irc.Irc.Evolution.Control.{
  handle_pm-Evolves, echo-Evolves, error-Evolves, cmd_help-Evolves,
}

module _ (setup : Setup) (p : Policy) where
  -- Another table of the users, of the contacts or of the requests.
  pub tables-Evolve :
      (s t : IrcServer)
      → t.password ≡ s.password
      → t.connections ≡ s.connections
      → t.clients ≡ s.clients
      → t.channels ≡ s.channels
      → t.calls ≡ s.calls
      → Evolves p s t
  tables-Evolve s t pw cs cl ch ca = record {
    password = pw;
    connections = cs;
    clients = λ c h. rw (← cl) h;
    kept = λ c h. inl (rw (cl) h);
    members = λ h. rw (ch) h;
    calls = λ h. rw (ca) h;
  }

  quit_user-Evolves : (v : Option ℕ) (s : IrcServer) → Evolves p s (quit_user setup v s)
  quit_user-Evolves none s =
      if_both (Evolves p s) _ _ _ (call-Evolves p null_pointer s (p.usual null_pointer refl))
        (still p s)
  quit_user-Evolves (some v) s = quit-Evolves p (virtual v) s

  drop_virtual-Evolves : (v : Option ℕ) (s : IrcServer) → Evolves p s (drop_virtual setup v s)
  drop_virtual-Evolves none s = still p s
  drop_virtual-Evolves (some v) s =
      tables-Evolve s (drop_virtual setup (some v) s) refl refl refl refl refl

  new_user-Evolves :
      (k : IrcContact) (s : IrcServer)
      → p.Admits (virtual s.next_virtual)
      → Evolves p s (add_contact_user setup k s)
  unfolding add_contact_user
  new_user-Evolves k s ok =
      next p
        (next p
          (next p (tables-Evolve s _ refl refl refl refl refl) (
            add_member-Evolves p setup.control_channel_name (virtual s.next_virtual) (codes "+v") _
              ok))
          (joined-Evolves p (virtual s.next_virtual) setup.control_channel_name _))
        (tables-Evolve _ _ refl refl refl refl refl)

  pub user_for-Evolves :
      (k : IrcContact) (found : Option UserRef) (s : IrcServer)
      → p.Admits (virtual s.next_virtual)
      → Evolves p s (user_for setup k found s)
  user_for-Evolves k none s ok = new_user-Evolves k s ok
  user_for-Evolves k (some r) s ok = still p s

  write_line-Evolves :
      (r : UserRef) (t : Text) (cs : List ℕ) (s : IrcServer)
      → Evolves p s (write_line setup r t cs s)
  write_line-Evolves r t [] s = still p s
  write_line-Evolves r t (c ∷ cs) s = next p (write-Evolves p c _ s) (write_line-Evolves r t cs _)

  write_lines-Evolves :
      (v : Option ℕ) (ts : List Text) (s : IrcServer) → Evolves p s (write_lines setup v ts s)
  write_lines-Evolves v [] s = still p s
  write_lines-Evolves none (t ∷ ts) s =
      next p
        (if_both (Evolves p s) (ltb 0 (length s.clients)) (call null_pointer s) s
          (call-Evolves p null_pointer s (p.usual null_pointer refl)) (still p s))
        (write_lines-Evolves none ts _)
  write_lines-Evolves (some v) (t ∷ ts) s =
      next p (write_line-Evolves (virtual v) t s.clients s) (write_lines-Evolves (some v) ts _)

  pub forward_message-Evolves :
      (key : ℕ) (is_outgoing : Bool) (t : Text) (s : IrcServer)
      → Evolves p s (forward_message setup key is_outgoing t s)
  unfolding forward_message
  forward_message-Evolves key is_outgoing t s =
      if_both (Evolves p s) is_outgoing _ _ (still p s)
        (write_lines-Evolves (find key s.usermap) (split_at 10 t) s)

  pub on_tor_control_status_changed-Evolves :
      (is_connected : Bool) (s : IrcServer)
      → Evolves p s (on_tor_control_status_changed setup is_connected s)
  unfolding on_tor_control_status_changed
  on_tor_control_status_changed-Evolves is_connected s =
      if_both (Evolves p s) is_connected _ _ (set_topic-Evolves p _ _ _ s) (still p s)

  -- What follows may order libtego to do anything.
  module _ (all : (k : Call) → is_order k ≡ true → p.Permits k) where
    echoes : (t : Text) (s : IrcServer) → Evolves p s (echo setup t s)
    echoes = echo-Evolves setup p

    errs : (t : Text) (s : IrcServer) → Evolves p s (error setup t s)
    errs = error-Evolves setup p

    orders : (k : Call) (s : IrcServer) → is_order k ≡ true → Evolves p s (call k s)
    orders k s o = call-Evolves p k s (all k o)

    cmd_add-Evolves : (ws : List Text) (s : IrcServer) → Evolves p s (cmd_add setup ws s)
    unfolding cmd_add
    cmd_add-Evolves [] s = errs _ s
    cmd_add-Evolves (a ∷ []) s = errs _ s
    cmd_add-Evolves (a ∷ b ∷ []) s = errs _ s
    cmd_add-Evolves (a ∷ b ∷ c ∷ ws) s =
        if_both (Evolves p s) (setup.is_acceptable a) _ _ (next p (echoes _ s) (orders _ _ refl))
          (errs _ s)

    delete_found-Evolves :
        (k : IrcContact) (v : Option ℕ) (s : IrcServer)
        → Evolves p s (quit_user setup v (drop_virtual setup v (call (delete_contact k.key) s)))
    delete_found-Evolves k v s =
        next p (next p (orders (delete_contact k.key) s refl) (drop_virtual-Evolves v _))
          (quit_user-Evolves v _)

    cmd_delete-Evolves : (ws : List Text) (s : IrcServer) → Evolves p s (cmd_delete setup ws s)
    unfolding cmd_delete
    cmd_delete-Evolves [] s = errs _ s
    cmd_delete-Evolves (a ∷ b ∷ ws) s = errs _ s
    cmd_delete-Evolves (a ∷ []) s =
        option_both (Evolves p s) (contact_named a s.contacts) _ _ (echoes _ s) (λ k e.
          next p (delete_found-Evolves k (find k.key s.usermap) s)
            (tables-Evolve _ _ refl refl refl refl refl))

    rename_contact-Evolves :
        (a b : Text) (k : IrcContact) (s : IrcServer) → Evolves p s (rename_contact setup a b k s)
    unfolding rename_contact
    rename_contact-Evolves a b k s =
        next p (next p (echoes _ s) (orders _ _ refl)) (
          option_both (Evolves p _) _ _ _ (still p _) (λ v e. rename-Evolves p setup.qt.host v b _))

    cmd_rename-Evolves : (ws : List Text) (s : IrcServer) → Evolves p s (cmd_rename setup ws s)
    unfolding cmd_rename
    cmd_rename-Evolves [] s = errs _ s
    cmd_rename-Evolves (a ∷ []) s = errs _ s
    cmd_rename-Evolves (a ∷ b ∷ c ∷ ws) s = errs _ s
    cmd_rename-Evolves (a ∷ b ∷ []) s = if_both (Evolves p s) _ _ _ (errs _ s) (
        option_both (Evolves p s) (contact_named a s.contacts) _ _ (echoes _ s)
          (λ k e. rename_contact-Evolves a b k s))

    list_requests-Evolves :
        (rs : List IrcRequest) (s : IrcServer) → Evolves p s (list_requests setup rs s)
    list_requests-Evolves [] s = still p s
    list_requests-Evolves (r ∷ rs) s = next p (echoes _ s) (list_requests-Evolves rs _)

    with_request-Evolves :
        (id : Text) (k : Call) (s : IrcServer)
        → is_order k ≡ true
        → Evolves p s (with_request setup id k s)
    with_request-Evolves id k s o = if_both (Evolves p s) _ _ _ (orders k s o) (echoes _ s)

    cmd_request-Evolves : (ws : List Text) (s : IrcServer) → Evolves p s (cmd_request setup ws s)
    unfolding cmd_request
    cmd_request-Evolves [] s = errs _ s
    cmd_request-Evolves (a ∷ []) s =
        if_both (Evolves p s) _ _ _ (next p (echoes _ s) (list_requests-Evolves s.requests _))
          (errs _ s)
    cmd_request-Evolves (a ∷ b ∷ []) s =
        if_both (Evolves p s) _ _ _ (with_request-Evolves b _ s refl) (errs _ s)
    cmd_request-Evolves (a ∷ b ∷ c ∷ []) s =
        if_both (Evolves p s) _ _ _ (with_request-Evolves b _ s refl) (errs _ s)
    cmd_request-Evolves (a ∷ b ∷ c ∷ d ∷ ws) s = errs _ s

    run_command-Evolves :
        (cmd : Text) (ws : List Text) (s : IrcServer) → Evolves p s (run_command setup cmd ws s)
    unfolding run_command cmd_id
    run_command-Evolves cmd ws s =
        if_both (Evolves p s) (same cmd (codes "help")) _ _ (cmd_help-Evolves setup p s) (
          if_both (Evolves p s) (same cmd (codes "id")) _ _ (echoes _ s) (
            if_both (Evolves p s) (same cmd (codes "add")) _ _ (cmd_add-Evolves ws s) (
              if_both (Evolves p s) (same cmd (codes "delete")) _ _ (cmd_delete-Evolves ws s) (
                if_both (Evolves p s) (same cmd (codes "rename")) _ _ (cmd_rename-Evolves ws s) (
                  if_both (Evolves p s) (same cmd (codes "request")) _ _ (cmd_request-Evolves ws s)
                    (errs _ s))))))

    parse_command-Evolves :
        (ws : List Text) (s : IrcServer) → Evolves p s (parse_command setup ws s)
    unfolding parse_command
    parse_command-Evolves [] s = still p s
    parse_command-Evolves (w ∷ ws) s = run_command-Evolves w ws s

    pub privmsg_hook-Evolves :
        (r : UserRef) (target text : Text) (s : IrcServer)
        → ((k : ℕ) → p.Permits (send_to_contact (connection_of setup r) k text))
        → Evolves p s (privmsg_hook setup r target text s)
    unfolding privmsg_hook
    privmsg_hook-Evolves r target text s own =
        if_both (Evolves p s) _ _ _ (parse_command-Evolves _ s)
          (handle_pm-Evolves setup p _ _ text s own)
