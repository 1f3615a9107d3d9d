-- ===== src/Contacts/Order.antt =====
-- The order of host names that decides between two connections
-- (src/libtego/source/core/ContactUser.cpp, `QString::compare`).
use ricochet_irc.Prelude.{
  ℕ, ◌≡◌, ◌≢◌, ◌⊎◌, inl, inr, refl, Bool, not, ◌||◌, ◌&&◌, [], ◌∷◌, ltb, ◌==◌, arith,
}
use ricochet_irc.Connection.State.{Text}
use ricochet_irc.Contacts.Assignment.{less}

heads :
    (x y : ℕ) (p q : Bool)
    → (q ≡ not p)
    → (ltb y x || ((y == x) && q)) ≡ not (ltb x y || ((x == y) && p))
heads x y p q e = ground arith

heads_equal :
    (x y : ℕ) (p q : Bool)
    → (x ≡ y) ⊎ ((ltb y x || ((y == x) && q)) ≡ not (ltb x y || ((x == y) && p)))
heads_equal x y p q = ground arith

less-cases : (xs ys : Text) → (xs ≡ ys) ⊎ (less ys xs ≡ not (less xs ys))
unfolding less
less-cases [] [] = inl refl
less-cases [] (y ∷ ys) = inr refl
less-cases (x ∷ xs) [] = inr refl
less-cases (x ∷ xs) (y ∷ ys) = elim (less-cases xs ys) [
  | inl e ↦ elim (heads_equal x y (less xs ys) (less ys xs)) [ inl e' ↦ inl cc | inr h ↦ inr h ]
  | inr h ↦ inr (heads x y (less xs ys) (less ys xs) h)
]

-- Of two different names, exactly one comes first.
pub less-flip : (xs ys : Text) → xs ≢ ys → less ys xs ≡ not (less xs ys)
less-flip xs ys d = elim (less-cases xs ys) [ inl e ↦ absurd (d e) | inr h ↦ h ]
