-- ===== src/Files/Saved.antt =====
-- The files that a transfer leaves at their destination.
use ricochet_irc.Prelude.{◌≡◌, Bool, All, length}
use ricochet_irc.Wire.Frame.{Bytes}
use ricochet_irc.Files.Transfers.{Transfers, SavedFile}

-- The file has the size and the hash that were announced for it.
abbrev pub IsWhole : (Bytes → Bytes) → SavedFile → Type 0
IsWhole hash f = (length f.contents ≡ f.size) × (hash f.contents ≡ f.hash)

-- Both outcomes leave the saved files alone.
abbrev Same : Transfers → Transfers → Type 0
Same t t' = t'.saved ≡ t.saved

-- The same, for a call with a Boolean result.
abbrev SameFirst : Transfers → Transfers × Bool → Type 0
SameFirst t r = r.0.saved ≡ t.saved

module _ (hash : Bytes → Bytes) where
  abbrev AllWhole : Transfers → Type 0
  AllWhole t = All (IsWhole hash) t.saved
