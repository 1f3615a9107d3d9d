-- ===== src/Ui/Windows/Handlers.antt =====
-- The functions that `getWindow` connects to the signals `closed` of the windows it creates
-- (src/ricochet-refresh/ui/ContactWindow.js).
use ricochet_irc.Prelude.{
  ℕ, suc, ◌+◌, ◌<◌, ◌≡◌, refl, ap, ◌∙◌, List, [], ◌∷◌, ◌++◌, Option, none, some, if◌then◌else◌,
  ◌==◌, arith, length,
}
use ricochet_irc.Ui.Windows.{Key, User, key_of, same_key, window_at, put_window, run_handlers}
use ricochet_irc.Ui.Windows.Sharing.{window_at-put_window}

-- One function for each window, with the key of the user it was created for. The numbers start at
-- `n`.
abbrev pub connections : ℕ → List User → List (ℕ × Key)
connections n [] = []
connections n (user ∷ users) = (n, key_of user) ∷ connections (suc n) users

-- The user that window `w` was created for.
abbrev pub creator : ℕ → ℕ → List User → Option User
creator n w [] = none
creator n w (user ∷ users) = if n == w then some user else creator (suc n) w users

pub connections-append :
    (n : ℕ) (users : List User) (user : User)
    → connections n (users ++ user ∷ [])
      ≡ connections n users ++ (n + length users, key_of user) ∷ []
connections-append n [] user = ap (λ (m : ℕ). (m, key_of user) ∷ []) (omega arith)
connections-append n (u ∷ users) user =
    ap (λ r. (n, key_of u) ∷ r)
      (connections-append (suc n) users user
        ∙ ap (λ (m : ℕ). connections (suc n) users ++ (m, key_of user) ∷ []) (omega arith))

pub creator-before : (n w : ℕ) (users : List User) → w < n → creator n w users ≡ none
creator-before n w [] h = refl
creator-before n w (u ∷ users) h = ground (arith, creator-before (suc n) w users)

pub creator-new :
    (n : ℕ) (users : List User) (user : User)
    → creator n (n + length users) (users ++ user ∷ []) ≡ some user
creator-new n [] user = ground arith
creator-new n (u ∷ users) user =
    let next = creator-new (suc n) users user in
    let here : n + length (u ∷ users) ≡ suc n + length users = omega arith in
    rw here (ground (arith, next))

pub creator-append :
    (n w : ℕ) (users : List User) (user creating : User)
    → creator n w users ≡ some creating
    → creator n w (users ++ user ∷ []) ≡ some creating
creator-append n w [] user creating e = absurd (cc)
creator-append n w (u ∷ users) user creating e =
    ground (arith, creator-append (suc n) w users user creating)

-- What the table reads at `k` once window `w` has emitted `closed`.
abbrev pub after_closed : Key → Option User → Option ℕ → Option ℕ
after_closed k none here = here
after_closed k (some user) here = if same_key (key_of user) k then none else here

pub window_at-run_handlers :
    (w n : ℕ) (users : List User) (m : List (Key × Option ℕ)) (k : Key)
    → window_at k (run_handlers w (connections n users) m)
      ≡ after_closed k (creator n w users) (window_at k m)
unfolding run_handlers
window_at-run_handlers w n [] m k = refl
window_at-run_handlers w n (u ∷ users) m k = ground (
  arith,
  window_at-run_handlers w (suc n) users m k,
  window_at-run_handlers w (suc n) users (put_window (key_of u) none m) k,
  window_at-put_window (key_of u) k none m,
  creator-before (suc n) w users,
)
