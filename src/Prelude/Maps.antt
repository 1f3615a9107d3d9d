-- ===== src/Prelude/Maps.antt =====
-- Maps with numeric keys (`QHash<int, …>`, `std::map<id, …>`) as association lists.
use Prim.Native.Nat.{ℕ, ◌≤◌}
use mathlib.Core.Path.{◌≡◌, refl}
use mathlib.Core.Logic.{}
use mathlib.Core.Bool.{Bool}
use mathlib.Core.Option.{Option, none, some}
use mathlib.Core.List.{List, [], ◌∷◌}
use native.Mathlib.Omega.{arith}
use ricochet_irc.Prelude.Tests.{◌==◌, if◌then◌else◌, is_some}
use ricochet_irc.Prelude.Lists.{length}

abbrev pub Dict {ℓ} : Type ℓ → Type ℓ
Dict A = List (ℕ × A)

module _ {ℓ} {A : Type ℓ} where
  abbrev pub find : ℕ → Dict A → Option A
  find k [] = none
  find k ((j, v) ∷ m) = if j == k then some v else find k m

  abbrev pub contains : ℕ → Dict A → Bool
  contains k m = is_some (find k m)

  -- Overwrites the entry of a present key (`QHash::insert`, `operator[] =`).
  abbrev pub put : ℕ → A → Dict A → Dict A
  put k v [] = (k, v) ∷ []
  put k v ((j, w) ∷ m) = if j == k then (k, v) ∷ m else (j, w) ∷ put k v m

  -- Leaves a present key alone (`std::map::insert`).
  abbrev pub put_new : ℕ → A → Dict A → Dict A
  put_new k v m = if contains k m then m else put k v m

  abbrev pub remove : ℕ → Dict A → Dict A
  remove k [] = []
  remove k ((j, v) ∷ m) = if j == k then remove k m else (j, v) ∷ remove k m

  pub find-put :
      (k j : ℕ) (v : A) (m : Dict A) → find j (put k v m) ≡ (if k == j then some v else find j m)
  find-put k j v [] = refl
  find-put k j v ((i, w) ∷ m) = ground (arith, find-put k j v m)

  pub find-remove :
      (k j : ℕ) (m : Dict A) → find j (remove k m) ≡ (if k == j then none else find j m)
  find-remove k j [] = ground arith
  find-remove k j ((i, w) ∷ m) = ground (arith, find-remove k j m)

  pub length-remove : (k : ℕ) (m : Dict A) → length (remove k m) ≤ length m
  length-remove k [] = omega arith
  length-remove k ((j, v) ∷ m) = ground (arith, length-remove k m)

module _ {ℓ κ} {A : Type ℓ} (P : ℕ → A → Type κ) where
  -- Every entry has the property.
  abbrev pub Entries : Dict A → Type κ
  Entries [] = Unit
  Entries ((k, v) ∷ m) = P k v × Entries m

  pub Entries-put : (k : ℕ) (v : A) (m : Dict A) → P k v → Entries m → Entries (put k v m)
  Entries-put k v [] p h = (p, h)
  Entries-put k v ((j, w) ∷ m) p h = ground (arith, Entries-put k v m p h.1)

  pub Entries-remove : (k : ℕ) (m : Dict A) → Entries m → Entries (remove k m)
  Entries-remove k [] h = h
  Entries-remove k ((j, w) ∷ m) h = ground (arith, Entries-remove k m h.1)

  pub Entries-find : (k : ℕ) (m : Dict A) (v : A) → Entries m → find k m ≡ some v → P k v
  Entries-find k [] v h e = absurd (cc)
  Entries-find k ((j, w) ∷ m) v h e =
      ground (arith, λ (e' : find k m ≡ some v). Entries-find k m v h.1 e')

pub Entries-mono {ℓ κ κ'} :
    {A : Type ℓ} (P : ℕ → A → Type κ) (Q : ℕ → A → Type κ') (m : Dict A)
    → ((k : ℕ) (v : A) → P k v → Q k v)
    → Entries P m
    → Entries Q m
Entries-mono P Q [] f h = tt
Entries-mono P Q ((k, v) ∷ m) f h = (f k v h.0, Entries-mono P Q m f h.1)
