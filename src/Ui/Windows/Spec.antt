-- ===== src/Ui/Windows/Spec.antt =====
-- The abstract table of windows: for each key the window that is open, as a function.
use ricochet_irc.Prelude.{
  ℕ, arith, suc, ◌≡◌, Bool, true, false, List, [], ◌∷◌, Option, none, some, if◌then◌else◌, ◌==◌,
}
use ricochet_irc.Ui.Windows.{Key, key_of, same_key, Event, completes, asks, closes}

-- `count` windows have been created, if windows can be created at all.
pub record Spec : Type 0 where
  pub open_window_of : Key → Option ℕ
  pub can_create : Bool
  pub count : ℕ

abbrev pub new_spec : Spec
new_spec = record { open_window_of = λ k. none; can_create = false; count = 0 }

-- A new window is open under the key, and under no other.
abbrev pub with_window : Key → Spec → Spec
with_window key s = record s {
  open_window_of = λ k. if same_key key k then some s.count else s.open_window_of k;
  count = suc s.count;
}

abbrev pub spec_asks : Key → Spec → Spec
spec_asks key s = elim (s.open_window_of key) [
  | some w ↦ s
  | none ↦ if s.can_create then with_window key s else s
]

abbrev pub is_window : ℕ → Option ℕ → Bool
is_window w none = false
is_window w (some v) = v == w

abbrev pub spec_closes : ℕ → Spec → Spec
spec_closes w s = record s {
  open_window_of = λ k. if is_window w (s.open_window_of k) then none else s.open_window_of k;
}

unfoldable pub spec_step : Event → Spec → Spec
spec_step completes s = record s { can_create = true }
spec_step (asks user) s = spec_asks (key_of user) s
spec_step (closes w) s = spec_closes w s

unfoldable pub spec_run : List Event → Spec → Spec
spec_run [] s = s
spec_run (e ∷ es) s = spec_run es (spec_step e s)

-- Only a window that is open emits `closed`.
abbrev pub IsPossible : Event → Spec → Type 0
IsPossible (closes w) s = (k : Key) × (s.open_window_of k ≡ some w)
IsPossible _ s = Unit {0}

abbrev pub ArePossible : List Event → Spec → Type 0
ArePossible [] s = Unit {0}
ArePossible (e ∷ es) s = IsPossible e s × ArePossible es (spec_step e s)

pub spec_asks-open :
    (key : Key) (s : Spec) (w : ℕ) → s.open_window_of key ≡ some w → spec_asks key s ≡ s
spec_asks-open key s w e = ground arith

pub spec_asks-refused :
    (key : Key) (s : Spec)
    → s.open_window_of key ≡ none
    → s.can_create ≡ false
    → spec_asks key s ≡ s
spec_asks-refused key s e c = ground arith

pub spec_asks-created :
    (key : Key) (s : Spec)
    → s.open_window_of key ≡ none
    → s.can_create ≡ true
    → spec_asks key s ≡ with_window key s
spec_asks-created key s e c = ground arith
