-- ===== src/Ui/Escape/Decoding.antt =====
-- Decoding the five entities of the escaped text.
use mathlib.Core.List.{flat_map}
use ricochet_irc.Prelude.{
  ℕ, zero, suc, ◌≤◌, ◌≡◌, refl, ap, sym, ◌∙◌, true, false, [], ◌∷◌, ◌++◌, length, length-append,
  Option, none, some, if◌then◌else◌, ◌==◌, codes, arith,
}
use ricochet_irc.Ui.Escape.{Units, html_escaped}
use ricochet_irc.Ui.Escape.OnePass.{entity, html_escaped-flat_map}

-- What stands behind `p` at the front of `s`.
abbrev strip : Units → Units → Option Units
strip [] s = some s
strip (x ∷ p) [] = none
strip (x ∷ p) (y ∷ s) = if y == x then strip p s else none

-- The unit that an ampersand with `s` behind it stands for, and the text behind the entity.
abbrev reference : Units → ℕ × Units
reference s = elim (strip (codes "amp;") s) [
  | some r ↦ (b'&', r)
  | none ↦ elim (strip (codes "lt;") s) [
    | some r ↦ (b'<', r)
    | none ↦ elim (strip (codes "gt;") s) [
      | some r ↦ (b'>', r)
      | none ↦ elim (strip (codes "quot;") s) [
        | some r ↦ (b'"', r)
        | none ↦ elim (strip (codes "apos;") s) [ some r ↦ (b'\'', r) | none ↦ (b'&', s) ]
      ]
    ]
  ]
]

-- The text with its entities decoded, from left to right. Each round takes a unit or an entity off the text, so its length is
-- enough fuel.
decode_with : ℕ → Units → Units
decode_with zero s = []
decode_with (suc n) [] = []
decode_with (suc n) (x ∷ s) = elim (x == b'&') [
  | true ↦ let (u, rest) = reference s in u ∷ decode_with n rest
  | false ↦ x ∷ decode_with n s
]

unfoldable pub decode : Units → Units
unfolding decode_with
decode s = decode_with (length s) s

decode_with-entity :
    (n x : ℕ) (rest : Units) → decode_with (suc n) (entity x ++ rest) ≡ x ∷ decode_with n rest
unfolding decode_with
decode_with-entity n x rest = ground arith

decode_with-flat_map : (n : ℕ) (s : Units) → length s ≤ n → decode_with n (flat_map entity s) ≡ s
unfolding flat_map decode_with
decode_with-flat_map zero [] h = refl
decode_with-flat_map zero (x ∷ s) h = absurd (omega arith)
decode_with-flat_map (suc n) [] h = refl
decode_with-flat_map (suc n) (x ∷ s) h =
    decode_with-entity n x (flat_map entity s)
    ∙ ap (λ t. x ∷ t) (decode_with-flat_map n s (omega arith))

entity_not_empty : (x : ℕ) → 1 ≤ length (entity x)
entity_not_empty x = ground arith

flat_map_longer : (s : Units) → length s ≤ length (flat_map entity s)
unfolding flat_map
flat_map_longer [] = omega arith
flat_map_longer (x ∷ s) =
    omega
      (arith, flat_map_longer s, entity_not_empty x, length-append (entity x) (flat_map entity s))

-- Decoding the five entities of the escaped text from left to right gives the text that was
-- escaped, unit for unit.
pub decode-html_escaped : (s : Units) → decode (html_escaped s) ≡ s
unfolding decode
decode-html_escaped s =
    rw (html_escaped-flat_map s)
      (decode_with-flat_map (length (flat_map entity s)) s (flat_map_longer s))

-- Two texts with the same escaped text are the same.
pub html_escaped_injective : (s t : Units) → html_escaped s ≡ html_escaped t → s ≡ t
html_escaped_injective s t e = sym (decode-html_escaped s) ∙ ap decode e ∙ decode-html_escaped t
