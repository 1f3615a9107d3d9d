-- ===== src/Ui/Windows/Sharing.antt =====
-- The table of windows, and which users share a window (src/ricochet-refresh/ui/ContactWindow.js).
use ricochet_irc.Prelude.{
  ℕ, ◌++◌, ◌≡◌, refl, ap, ◌∙◌, true, List, [], ◌∷◌, Option, none, some, is_some, if◌then◌else◌,
  ==_refl, ==_iff, arith, length,
}
use ricochet_irc.Ui.Windows.{
  Key, User, Ui, bug, dialog, returned, type_error, key_of, same_key, window_at, put_window,
  open_window, get_window, window_exists,
}

pub same_key_refl : (k : Key) → same_key k k ≡ true
same_key_refl none = refl
same_key_refl (some a) = ==_refl a

pub same_key→eq : (j k : Key) → same_key j k ≡ true → j ≡ k
same_key→eq none none e = refl
same_key→eq none (some b) e = absurd (cc)
same_key→eq (some a) none e = absurd (cc)
same_key→eq (some a) (some b) e = ap some ((==_iff a b).0 e)

pub window_at-put_window :
    (k j : Key) (value : Option ℕ) (m : List (Key × Option ℕ))
    → window_at j (put_window k value m) ≡ (if same_key k j then value else window_at j m)
window_at-put_window k j value [] = ground arith
window_at-put_window k j value ((i, w) ∷ m) = ground (
  arith,
  window_at-put_window k j value m,
  same_key→eq i k,
  same_key→eq k j,
  same_key→eq i j,
  same_key_refl j,
)

pub window_at-put_window_self :
    (k : Key) (value : Option ℕ) (m : List (Key × Option ℕ))
    → window_at k (put_window k value m) ≡ value
window_at-put_window_self k value m =
    ground (arith, window_at-put_window k k value m, same_key_refl k)

-- A window that was just opened is in the table.
open_window-window_at :
    (user : User) (ui ui' : Ui) (w : ℕ)
    → open_window user ui ≡ (ui', returned w)
    → window_at (key_of user) ui'.windows ≡ some w
unfolding open_window
open_window-window_at user ui ui' w e =
    ground (arith, window_at-put_window_self (key_of user) (some (length ui.created)) ui.windows)

pub get_window-window_at :
    (user : User) (ui ui' : Ui) (w : ℕ)
    → get_window user ui ≡ (ui', returned w)
    → window_at (key_of user) ui'.windows ≡ some w
unfolding get_window
get_window-window_at user ui ui' w e = ground (arith, open_window-window_at user ui ui' w)

pub get_window-open :
    (user : User) (ui : Ui) (w : ℕ)
    → window_at (key_of user) ui.windows ≡ some w
    → get_window user ui ≡ (ui, returned w)
unfolding get_window
get_window-open user ui w e = ground arith

-- The next call for a user with the same key, be it the same contact or another one, returns the
-- same window and creates none; `windowExists` says that there is one.
pub get_window-shared :
    (user other : User) (ui ui' : Ui) (w : ℕ)
    → key_of other ≡ key_of user
    → get_window user ui ≡ (ui', returned w)
    → (get_window other ui' ≡ (ui', returned w)) × (window_exists other ui' ≡ true)
unfolding window_exists
get_window-shared user other ui ui' w same e =
    let at : window_at (key_of other) ui'.windows ≡ some w =
      ap (λ k. window_at k ui'.windows) same ∙ get_window-window_at user ui ui' w e in
    (get_window-open other ui' w at, ap is_some at)

-- Opening a window, where there is none and one can be created.
abbrev pub opened : User → Ui → Ui
opened user ui = record ui {
  created = ui.created ++ user ∷ [];
  closed_handlers = ui.closed_handlers ++ (length ui.created, key_of user) ∷ [];
  windows = put_window (key_of user) (some (length ui.created)) ui.windows;
}

pub get_window-bug :
    (user : User) (ui : Ui)
    → window_at (key_of user) ui.windows ≡ none
    → ui.create_window ≡ bug
    → get_window user ui ≡ (ui, type_error)
unfolding get_window open_window
get_window-bug user ui e c = ground arith

pub get_window-dialog :
    (user : User) (ui : Ui)
    → window_at (key_of user) ui.windows ≡ none
    → ui.create_window ≡ dialog
    → get_window user ui ≡ (opened user ui, returned (length ui.created))
unfolding get_window open_window
get_window-dialog user ui e c = ground arith
