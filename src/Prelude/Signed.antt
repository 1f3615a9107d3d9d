-- ===== src/Prelude/Signed.antt =====
-- `int32` fields of messages: an integer with its sign, for comparison and lookup only.
use Prim.Native.Nat.{ℕ}
use mathlib.Core.Option.{Option, none, some}

-- `negsuc n` is -(n + 1).
pub data ℤ : Type 0 where
  pos : ℕ → ℤ
  negsuc : ℕ → ℤ

-- A table with keys from 0 on has no entry at a negative number.
abbrev pub natural : ℤ → Option ℕ
natural (pos n) = some n
natural (negsuc n) = none
