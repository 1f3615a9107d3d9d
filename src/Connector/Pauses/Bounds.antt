-- ===== src/Connector/Pauses/Bounds.antt =====
-- The timer behind any history of a socket (src/libtego/source/tor/TorSocket.cpp).
use ricochet_irc.Prelude.{
  ℕ, ◌+◌, ◌≤◌, ◌≡◌, refl, ◌∙◌, Bool, true, false, not, ◌&&◌, ◌||◌, List, [], ◌∷◌, none, some,
  if◌then◌else◌, ◌==◌, arith, ap, is_some, if_both, if_cases,
}
use ricochet_irc.Connection.State.{Text}
use ricochet_irc.Connector.Status.{is_empty, is_same}
use ricochet_irc.Connector.Pauses.{
  TorSocket, Network, reconnect_interval, connect_socket, reconnect, set_reconnect_enabled,
  reset_attempts, connectivity_changed, on_failed, Event, connects, enables, resets,
  changes_connectivity, fails, timer_fires, step, run, new_socket,
}

interval_in_range :
    (attempts : ℕ)
    → (30 ≤ reconnect_interval attempts 600) × (reconnect_interval attempts 600 ≤ 600)
unfolding reconnect_interval
interval_in_range attempts = ground arith

pub record IsPaced (s : TorSocket) : Type 0 where
  pub maximum : s.max_interval ≡ 600
  pub exact : (t : ℕ) → s.connect_timer ≡ some t → t ≡ reconnect_interval s.connect_attempts 600
  pub off : s.reconnect_enabled ≡ false → s.connect_timer ≡ none

stopped : (s : TorSocket) → IsPaced s → IsPaced (record s { connect_timer = none })
stopped s p = record { maximum = p.maximum; exact = λ t e. absurd (cc); off = λ _. refl }

connect_socket-IsPaced :
    (net : Network) (host : Text) (port : ℕ) (s : TorSocket)
    → IsPaced s
    → IsPaced (connect_socket net host port s)
unfolding connect_socket
connect_socket-IsPaced net host port s p =
    if_both IsPaced (not net.has_connectivity) _ _
      (record { maximum = p.maximum; exact = p.exact; off = p.off })
      (record { maximum = p.maximum; exact = p.exact; off = p.off })

reconnect-IsPaced : (net : Network) (s : TorSocket) → IsPaced s → IsPaced (reconnect net s)
unfolding reconnect
reconnect-IsPaced net s p =
    if_both IsPaced (not net.has_connectivity || not s.reconnect_enabled) _ _ p (
      if_both IsPaced (not (is_empty s.host) && not (s.port == 0)) _ _
        (connect_socket-IsPaced net s.host s.port _ (stopped s p)) (stopped s p))

interval_exact :
    (n max t : ℕ)
    → max ≡ 600
    → some (reconnect_interval n max) ≡ some t
    → t ≡ reconnect_interval n 600
interval_exact n max t m e = cc

-- A timer that is started with the pause for the attempts so far.
timed :
    (s : TorSocket) (n : ℕ)
    → IsPaced s
    → s.reconnect_enabled ≡ true
    → IsPaced (record s {
      connect_attempts = n;
      connect_timer = some (reconnect_interval n s.max_interval);
    })
timed s n p on = record {
  maximum = p.maximum;
  exact = λ t e. interval_exact n s.max_interval t p.maximum e;
  off = λ e. absurd (cc);
}

-- No timer is running, so a change of the attempts matters to none.
untimed :
    (s : TorSocket) (n : ℕ) (b : Bool)
    → IsPaced s
    → is_some s.connect_timer ≡ false
    → IsPaced (record s { reconnect_enabled = b; connect_attempts = n })
untimed s n b p e = record {
  maximum = p.maximum;
  exact = λ t h. absurd (cc);
  off = λ _. ground (arith, p);
}

enabled_late :
    (s : TorSocket) → IsPaced s → s.reconnect_enabled ≡ false → is_some s.connect_timer ≡ false
enabled_late s p e = rw (p.off e) refl

set_reconnect_enabled-IsPaced :
    (net : Network) (b : Bool) (s : TorSocket) → IsPaced s → IsPaced (set_reconnect_enabled net b s)
unfolding set_reconnect_enabled
set_reconnect_enabled-IsPaced net b s p =
    let on = record s { reconnect_enabled = true; connect_attempts = 0 } in
    let off = record s { reconnect_enabled = false; connect_timer = none } in
    if_cases IsPaced (is_same b s.reconnect_enabled) s (if b then reconnect net on else off)
      (λ _. p)
      (λ e.
        if_cases IsPaced b (reconnect net on) off
          (λ e'. reconnect-IsPaced net on (untimed s 0 true p (enabled_late s p (ground arith))))
          (λ _. record { maximum = p.maximum; exact = λ t e. absurd (cc); off = λ _. refl }))

-- A timer runs only while reconnecting is enabled.
running : (s : TorSocket) → IsPaced s → is_some s.connect_timer ≡ true → s.reconnect_enabled ≡ true
running s p e = ground arith

reset_attempts-IsPaced : (s : TorSocket) → IsPaced s → IsPaced (reset_attempts s)
unfolding reset_attempts
reset_attempts-IsPaced s p =
    if_cases IsPaced (is_some s.connect_timer)
      (record s {
        connect_attempts = 0;
        connect_timer = some (reconnect_interval 0 s.max_interval);
      })
      (record s { connect_attempts = 0 }) (λ e. timed s 0 p (running s p e))
      (λ e. untimed s 0 s.reconnect_enabled p e)

connectivity_changed-IsPaced :
    (net : Network) (s : TorSocket) → IsPaced s → IsPaced (connectivity_changed net s)
unfolding connectivity_changed
connectivity_changed-IsPaced net s p =
    if_both IsPaced net.has_connectivity _ _
      (if_both IsPaced net.is_unconnected _ _ (reconnect-IsPaced net s p) p)
      (record { maximum = p.maximum; exact = λ t e. absurd (cc); off = λ _. refl })

on_failed-IsPaced : (s : TorSocket) → IsPaced s → IsPaced (on_failed s)
unfolding on_failed
on_failed-IsPaced s p =
    if_cases IsPaced (s.reconnect_enabled && not (is_some s.connect_timer)) _ _
      (λ e. timed s (s.connect_attempts + 1) p (ground arith)) (λ _. p)

step-IsPaced : (net : Network) (e : Event) (s : TorSocket) → IsPaced s → IsPaced (step net e s)
unfolding step
step-IsPaced net (connects host port) s p = connect_socket-IsPaced net host port s p
step-IsPaced net (enables b) s p = set_reconnect_enabled-IsPaced net b s p
step-IsPaced net resets s p = reset_attempts-IsPaced s p
step-IsPaced net changes_connectivity s p = connectivity_changed-IsPaced net s p
step-IsPaced net fails s p = on_failed-IsPaced s p
step-IsPaced net timer_fires s p = reconnect-IsPaced net _ (stopped s p)

run-IsPaced : (es : List (Network × Event)) (s : TorSocket) → IsPaced s → IsPaced (run es s)
unfolding run
run-IsPaced [] s p = p
run-IsPaced ((net, e) ∷ es) s p = run-IsPaced es (step net e s) (step-IsPaced net e s p)

-- How often an attempt has failed while reconnecting was enabled and no pause was running, with what
-- starts the count again: a reset, reconnecting that is enabled again, and Tor that is lost.
abbrev pub counted : Network → Event → TorSocket → ℕ → ℕ
counted net (connects host port) s n = n
counted net (enables b) s n = if b && not s.reconnect_enabled then 0 else n
counted net resets s n = 0
counted net changes_connectivity s n = if net.has_connectivity then n else 0
counted net fails s n = if s.reconnect_enabled && not (is_some s.connect_timer) then n + 1 else n
counted net timer_fires s n = n

unfoldable pub failures : List (Network × Event) → TorSocket → ℕ → ℕ
failures [] s n = n
failures ((net, e) ∷ es) s n = failures es (step net e s) (counted net e s n)

abbrev Kept : ℕ → TorSocket → Type 0
Kept n s = s.connect_attempts ≡ n

connect_socket-Kept :
    (net : Network) (host : Text) (port : ℕ) (s : TorSocket)
    → Kept s.connect_attempts (connect_socket net host port s)
unfolding connect_socket
connect_socket-Kept net host port s =
    if_both (Kept s.connect_attempts) (not net.has_connectivity) _ _ refl refl

reconnect-Kept : (net : Network) (s : TorSocket) → Kept s.connect_attempts (reconnect net s)
unfolding reconnect
reconnect-Kept net s =
    let s' = record s { connect_timer = none } in
    if_both (Kept s.connect_attempts) (not net.has_connectivity || not s.reconnect_enabled) s
      (if not (is_empty s.host) && not (s.port == 0)
        then connect_socket net s.host s.port s'
        else s')
      refl
      (if_both (Kept s.connect_attempts) (not (is_empty s.host) && not (s.port == 0))
        (connect_socket net s.host s.port s') s' (connect_socket-Kept net s.host s.port s') refl)

Kept-either :
    (b : Bool) (n : ℕ) (s s' : TorSocket)
    → Kept n s
    → Kept 0 s'
    → Kept (if b then n else 0) (if b then s else s')
Kept-either true n s s' p q = p
Kept-either false n s s' p q = q

step-counted :
    (net : Network) (e : Event) (s : TorSocket)
    → Kept (counted net e s s.connect_attempts) (step net e s)
unfolding step set_reconnect_enabled reset_attempts connectivity_changed on_failed
step-counted net (connects host port) s = connect_socket-Kept net host port s
step-counted net (enables b) s = enabled b
  where
    enabled :
        (b : Bool)
        → Kept (counted net (enables b) s s.connect_attempts) (set_reconnect_enabled net b s)
    enabled false =
        if_both (Kept s.connect_attempts) (is_same false s.reconnect_enabled) _ _ refl refl
    enabled true =
        if_cases (Kept (if not s.reconnect_enabled then 0 else s.connect_attempts))
          (is_same true s.reconnect_enabled) s
          (reconnect net (record s { reconnect_enabled = true; connect_attempts = 0 }))
          (λ e. ground arith)
          (λ e.
            reconnect-Kept net (record s { reconnect_enabled = true; connect_attempts = 0 })
            ∙ ground arith)
step-counted net resets s = if_both (Kept 0) (is_some s.connect_timer) _ _ refl refl
step-counted net changes_connectivity s =
    Kept-either net.has_connectivity s.connect_attempts
      (if net.is_unconnected then reconnect net s else s)
      (record s { connect_timer = none; connect_attempts = 0 })
      (if_both (Kept s.connect_attempts) net.is_unconnected (reconnect net s) s
        (reconnect-Kept net s) refl)
      refl
step-counted net fails s = ground arith
step-counted net timer_fires s = reconnect-Kept net (record s { connect_timer = none })

run-failures :
    (es : List (Network × Event)) (s : TorSocket)
    → (run es s).connect_attempts ≡ failures es s s.connect_attempts
unfolding run failures
run-failures [] s = refl
run-failures ((net, e) ∷ es) s =
    run-failures es (step net e s) ∙ ap (failures es (step net e s)) (step-counted net e s)

-- After any history, a timer that is running was started with the pause for the failures so far,
-- those counted since the last start of the count, which is between half a minute and ten minutes,
-- and reconnecting is enabled.
pub pauses_bounded :
    (es : List (Network × Event)) (t : ℕ)
    → (run es new_socket).connect_timer ≡ some t
    → (t ≡ reconnect_interval (failures es new_socket 0) 600)
      × (30 ≤ t)
      × (t ≤ 600)
      × ((run es new_socket).reconnect_enabled ≡ true)
pauses_bounded es t e =
    let s = run es new_socket in
    let p =
      run-IsPaced es new_socket
        (record { maximum = refl; exact = λ t e. absurd (cc); off = λ e. absurd (cc) }) in
    let exact = p.exact t e ∙ ap (λ n. reconnect_interval n 600) (run-failures es new_socket) in
    let range = interval_in_range (failures es new_socket 0) in
    (exact, omega (arith, range, exact), omega (arith, range, exact), running s p (ap is_some e))
