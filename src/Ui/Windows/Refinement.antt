-- ===== src/Ui/Windows/Refinement.antt =====
-- What the table of windows promises (src/ricochet-refresh/ui/ContactWindow.js): the abstract table
-- has the open window of each key and nothing else.
use ricochet_irc.Prelude.{
  ℕ, ◌≡◌, refl, sym, ap, ◌∙◌, Bool, true, false, List, [], ◌∷◌, ◌++◌, some, ◌==◌, arith, length,
  length-append, ==_refl, ==_iff, ◌⊎◌, inl, inr, Option-cases, Bool-cases,
}
use ricochet_irc.Ui.Windows.{
  Key, User, Ui, Result, CreateWindow, bug, dialog, returned, key_of, same_key, window_at,
  run_handlers, get_window, emit_closed, new_ui, Event, completes, asks, closes, step, run,
}
use ricochet_irc.Ui.Windows.Sharing.{
  opened, get_window-bug, get_window-dialog, get_window-open, get_window-window_at, same_key_refl,
  same_key→eq, window_at-put_window,
}
use ricochet_irc.Ui.Windows.Handlers.{
  connections, creator, connections-append, creator-new, creator-append, after_closed,
  window_at-run_handlers,
}
use ricochet_irc.Ui.Windows.Spec.{
  Spec, new_spec, with_window, spec_asks, is_window, spec_closes, spec_step, spec_run, IsPossible,
  ArePossible, spec_asks-open, spec_asks-refused, spec_asks-created,
}

abbrev pub can_create_of : CreateWindow → Bool
can_create_of bug = false
can_create_of dialog = true

pub record Refines (ui : Ui) (s : Spec) : Type 0 where
  pub same : (k : Key) → window_at k ui.windows ≡ s.open_window_of k
  pub can : can_create_of ui.create_window ≡ s.can_create
  pub counted : length ui.created ≡ s.count
  pub connected : ui.closed_handlers ≡ connections 0 ui.created
  -- A window in the table was created for a user with that key.
  pub made_for :
      (k : Key) (w : ℕ)
      → window_at k ui.windows ≡ some w
      → (user : User) × (creator 0 w ui.created ≡ some user) × (key_of user ≡ k)

new-Refines : Refines new_ui new_spec
new-Refines = record {
  same = λ k. refl;
  can = refl;
  counted = refl;
  connected = refl;
  made_for = λ k w e. absurd (cc);
}

opened_made_for :
    (user : User) (ui : Ui) (k : Key) (w : ℕ)
    → ((j : Key) (v : ℕ)
        → window_at j ui.windows ≡ some v
        → (u : User) × (creator 0 v ui.created ≡ some u) × (key_of u ≡ j))
    → window_at k (opened user ui).windows ≡ some w
    → (u : User) × (creator 0 w (opened user ui).created ≡ some u) × (key_of u ≡ k)
opened_made_for user ui k w made e = elim (Bool-cases (same_key (key_of user) k)) [
  | inl this ↦ (
    user,
    ground (
      arith,
      window_at-put_window (key_of user) k (some (length ui.created)) ui.windows,
      creator-new 0 ui.created user,
    ),
    same_key→eq (key_of user) k this,
  )
  | inr other ↦
      let there : window_at k ui.windows ≡ some w =
        ground
          (arith, window_at-put_window (key_of user) k (some (length ui.created)) ui.windows) in
      let (u, c, key) = made k w there in (u, creator-append 0 w ui.created user u c, key)
]

opened-Refines :
    (user : User) (ui : Ui) (s : Spec)
    → Refines ui s
    → Refines (opened user ui) (with_window (key_of user) s)
opened-Refines user ui s r = record {
  same = λ k.
      ground (
        arith,
        window_at-put_window (key_of user) k (some (length ui.created)) ui.windows,
        r.same k,
      );
  can = r.can;
  counted = omega (arith, length-append ui.created (user ∷ []));
  connected =
      ap (λ l. l ++ (length ui.created, key_of user) ∷ []) r.connected
      ∙ sym (
          connections-append 0 ui.created user
          ∙ ap (λ (m : ℕ). connections 0 ui.created ++ (m, key_of user) ∷ []) (omega arith));
  made_for = λ k w e. opened_made_for user ui k w r.made_for e;
}

CreateWindow-cases : (c : CreateWindow) → (c ≡ bug) ⊎ (c ≡ dialog)
CreateWindow-cases bug = inl refl
CreateWindow-cases dialog = inr refl

asks-Refines :
    (user : User) (ui : Ui) (s : Spec)
    → Refines ui s
    → Refines (get_window user ui).0 (spec_asks (key_of user) s)
asks-Refines user ui s r =
    let key = key_of user in
    let same = sym (r.same key) in
    elim (Option-cases (window_at key ui.windows)) [
      | inr (w, there) ↦
          rw (get_window-open user ui w there, spec_asks-open key s w (same ∙ there)) r
      | inl absent ↦ elim (CreateWindow-cases ui.create_window) [
        | inl c ↦
            rw
              (
                get_window-bug user ui absent c,
                spec_asks-refused key s (same ∙ absent) (sym r.can ∙ ap can_create_of c),
              )
              r
        | inr c ↦
            rw
              (
                get_window-dialog user ui absent c,
                spec_asks-created key s (same ∙ absent) (sym r.can ∙ ap can_create_of c),
              )
              (opened-Refines user ui s r)
      ]
    ]

-- Reading the table behind the signal of a window that was created for `u`.
window_at-emit_closed :
    (w : ℕ) (ui : Ui) (k : Key) (u : User)
    → ui.closed_handlers ≡ connections 0 ui.created
    → creator 0 w ui.created ≡ some u
    → window_at k (emit_closed w ui).windows ≡ after_closed k (some u) (window_at k ui.windows)
unfolding emit_closed
window_at-emit_closed w ui k u connected c =
    ap (λ h. window_at k (run_handlers w h ui.windows)) connected
    ∙ window_at-run_handlers w 0 ui.created ui.windows k
    ∙ ap (λ o. after_closed k o (window_at k ui.windows)) c

some_injective : (u v : User) → some u ≡ some v → u ≡ v
some_injective u v e = cc

-- The window of the key is not open under any other.
open_elsewhere :
    (w : ℕ) (ui : Ui) (s : Spec) (k : Key) (u : User)
    → Refines ui s
    → creator 0 w ui.created ≡ some u
    → same_key (key_of u) k ≡ false
    → is_window w (s.open_window_of k) ≡ false
open_elsewhere w ui s k u r c other = elim (Option-cases (s.open_window_of k)) [
  | inl absent ↦ rw absent refl
  | inr (v, there) ↦ elim (Bool-cases (v == w)) [
    | inr different ↦ rw there different
    | inl same_window ↦
        let here : window_at k ui.windows ≡ some w =
          r.same k ∙ there ∙ ap some ((==_iff v w).0 same_window) in
        let (u', c', key) = r.made_for k w here in
        let owner : key_of u ≡ k = ap key_of (some_injective u u' (sym c ∙ c')) ∙ key in
        absurd (
          false-ne-true
            (sym other ∙ ap (same_key (key_of u)) (sym owner) ∙ same_key_refl (key_of u)))
  ]
]
  where
    false-ne-true : false ≡ true → ⊥
    false-ne-true e = cc

closes_same :
    (w : ℕ) (ui : Ui) (s : Spec) (key k : Key) (u : User)
    → Refines ui s
    → s.open_window_of key ≡ some w
    → creator 0 w ui.created ≡ some u
    → key_of u ≡ key
    → window_at k (emit_closed w ui).windows ≡ (spec_closes w s).open_window_of k
closes_same w ui s key k u r there c owner =
    window_at-emit_closed w ui k u r.connected c ∙ elim (Bool-cases (same_key (key_of u) k)) [
      | inl this ↦
          let here : s.open_window_of k ≡ some w =
            ap s.open_window_of (sym (same_key→eq (key_of u) k this) ∙ owner) ∙ there in
          ground (arith, here, ==_refl w)
      | inr other ↦ ground (arith, r.same k, open_elsewhere w ui s k u r c other)
    ]

closed_before :
    (w v : ℕ) (ui : Ui) (k : Key) (u : User)
    → ui.closed_handlers ≡ connections 0 ui.created
    → creator 0 w ui.created ≡ some u
    → window_at k (emit_closed w ui).windows ≡ some v
    → window_at k ui.windows ≡ some v
closed_before w v ui k u connected c e =
    let e' = sym (window_at-emit_closed w ui k u connected c) ∙ e in ground (arith, e')

closes-Refines :
    (w : ℕ) (ui : Ui) (s : Spec)
    → Refines ui s
    → (k : Key) × (s.open_window_of k ≡ some w)
    → Refines (emit_closed w ui) (spec_closes w s)
unfolding emit_closed
closes-Refines w ui s r (key, there) =
    let (u, c, owner) = r.made_for key w (r.same key ∙ there) in
    record {
      same = λ k. closes_same w ui s key k u r there c owner;
      can = r.can;
      counted = r.counted;
      connected = r.connected;
      made_for = λ k v e. r.made_for k v (closed_before w v ui k u r.connected c e);
    }

step-Refines :
    (e : Event) (ui : Ui) (s : Spec)
    → Refines ui s
    → IsPossible e s
    → Refines (step e ui) (spec_step e s)
unfolding step spec_step
step-Refines completes ui s r p = record {
  same = r.same;
  can = refl;
  counted = r.counted;
  connected = r.connected;
  made_for = r.made_for;
}
step-Refines (asks user) ui s r p = asks-Refines user ui s r
step-Refines (closes w) ui s r p = closes-Refines w ui s r p

run-Refines :
    (es : List Event) (ui : Ui) (s : Spec)
    → Refines ui s
    → ArePossible es s
    → Refines (run es ui) (spec_run es s)
unfolding run spec_run
run-Refines [] ui s r p = r
run-Refines (e ∷ es) ui s r p =
    run-Refines es (step e ui) (spec_step e s) (step-Refines e ui s r p.0) p.1

-- After any history in which only open windows close, the table of the script reads at every key
-- what the abstract table reads: the window that was last opened for that key, until it closes.
pub windows_refine :
    (es : List Event) (k : Key)
    → ArePossible es new_spec
    → window_at k (run es new_ui).windows ≡ (spec_run es new_spec).open_window_of k
windows_refine es k p = (run-Refines es new_ui new_spec new-Refines p).same k

-- After any history in which only open windows close, a window that `getWindow` returns was created
-- for a user with the key of the one that asks.
pub get_window-made_for :
    (es : List Event) (user : User) (ui' : Ui) (w : ℕ)
    → ArePossible es new_spec
    → get_window user (run es new_ui) ≡ (ui', returned w)
    → (owner : User) × (creator 0 w ui'.created ≡ some owner) × (key_of owner ≡ key_of user)
get_window-made_for es user ui' w p e =
    let r = run-Refines es new_ui new_spec new-Refines p in
    let r' = asks-Refines user (run es new_ui) (spec_run es new_spec) r in
    let after : (get_window user (run es new_ui)).0 ≡ ui' = ap (λ (x : Ui × Result). x.0) e in
    let r'' : Refines ui' (spec_asks (key_of user) (spec_run es new_spec)) = rw after at r' in
    r''.made_for (key_of user) w (get_window-window_at user (run es new_ui) ui' w e)
