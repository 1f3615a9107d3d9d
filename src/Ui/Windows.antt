-- ===== src/Ui/Windows.antt =====
-- One window for each contact: `getWindow` and `windowExists`
-- (src/ricochet-refresh/ui/ContactWindow.js), with `createWindow` as that file sets it at first and
-- as src/ricochet-refresh/ui/main.qml sets it later.
pub mod Sharing
pub mod Handlers
pub mod Spec
pub mod Refinement
use ricochet_irc.Prelude.{
  ℕ, ◌+◌, Bool, true, false, List, [], ◌∷◌, ◌++◌, Option, none, some, is_some, if◌then◌else◌, ◌==◌,
  length,
}

-- The key of a property: `none` is the text "undefined", which a user without the property
-- `uniqueID` has, and the others are the texts of numbers.
abbrev pub Key : Type 0
Key = Option ℕ

pub record User : Type 0 where
  -- The contact that the object stands for.
  pub contact_id : ℕ
  pub unique_id : Option ℕ

abbrev pub key_of : User → Key
key_of user = user.unique_id

abbrev pub same_key : Key → Key → Bool
same_key none none = true
same_key (some a) (some b) = a == b
same_key _ _ = false

-- `bug` is the function that logs "BUG!" and returns nothing; `dialog` creates a new window.
pub data CreateWindow : Type 0 where
  bug dialog : CreateWindow

-- The object `windows`, each value a window or undefined. Windows are numbered as they are created;
-- `created` has the user of each, oldest first. `closed_handlers` are the functions connected to
-- the signals `closed`, oldest first: the window of each, and its `id`.
pub record Ui : Type 0 where
  pub windows : List (Key × Option ℕ)
  pub create_window : CreateWindow
  pub created : List User
  pub closed_handlers : List (ℕ × Key)

-- What a call returns: a window, or a TypeError for reading `closed` of undefined.
pub data Result : Type 0 where
  returned : ℕ → Result
  type_error : Result

-- `windows[id]`, where a property that is missing reads as undefined.
abbrev pub window_at : Key → List (Key × Option ℕ) → Option ℕ
window_at k [] = none
window_at k ((j, w) ∷ rest) = if same_key j k then w else window_at k rest

-- `windows[id] = value`.
abbrev pub put_window : Key → Option ℕ → List (Key × Option ℕ) → List (Key × Option ℕ)
put_window k value [] = (k, value) ∷ []
put_window k value ((j, w) ∷ rest) =
    if same_key j k then (j, value) ∷ rest else (j, w) ∷ put_window k value rest

-- The branch of `getWindow` without a window.
unfoldable pub open_window : User → Ui → Ui × Result
open_window user ui = elim ui.create_window [
  | bug ↦ (ui, type_error)
  | dialog ↦
      let window = length ui.created in
      (
        record ui {
          created = ui.created ++ user ∷ [];
          closed_handlers = ui.closed_handlers ++ (window, key_of user) ∷ [];
          windows = put_window (key_of user) (some window) ui.windows;
        },
        returned window,
      )
]

unfoldable pub get_window : User → Ui → Ui × Result
get_window user ui = elim (window_at (key_of user) ui.windows) [
  | some window ↦ (ui, returned window)
  | none ↦ open_window user ui
]

unfoldable pub window_exists : User → Ui → Bool
window_exists user ui = is_some (window_at (key_of user) ui.windows)

-- A window emits `closed`: its handlers run, in order.
unfoldable pub run_handlers : ℕ → List (ℕ × Key) → List (Key × Option ℕ) → List (Key × Option ℕ)
run_handlers window [] windows = windows
run_handlers window ((w, id) ∷ rest) windows =
    run_handlers window rest (if w == window then put_window id none windows else windows)

unfoldable pub emit_closed : ℕ → Ui → Ui
emit_closed window ui = record ui { windows = run_handlers window ui.closed_handlers ui.windows }

abbrev pub new_ui : Ui
new_ui = record { windows = []; create_window = bug; created = []; closed_handlers = [] }

pub data Event : Type 0 where
  -- main.qml sets `createWindow`.
  completes : Event
  asks : User → Event
  closes : ℕ → Event

unfoldable pub step : Event → Ui → Ui
step completes ui = record ui { create_window = dialog }
step (asks user) ui = (get_window user ui).0
step (closes window) ui = emit_closed window ui

unfoldable pub run : List Event → Ui → Ui
run [] ui = ui
run (e ∷ rest) ui = run rest (step e ui)
