-- ===== src/Ui/Escape/OnePass.antt =====
-- The five replacements, one after the other, against one pass over the text.
use mathlib.Core.List.{flat_map}
use ricochet_irc.Prelude.{
  ℕ, ◌≡◌, refl, ap, ◌∙◌, [], ◌∷◌, ◌++◌, append_assoc, if◌then◌else◌, ◌==◌, codes, arith,
}
use ricochet_irc.Ui.Escape.{Units, replace_all, html_escaped}

-- What one unit becomes.
abbrev pub entity : ℕ → Units
entity x =
    if x == b'&'
    then codes "&amp;"
    else if x == b'<'
    then codes "&lt;"
    else if x == b'>'
    then codes "&gt;"
    else if x == b'"'
    then codes "&quot;"
    else if x == b'\''
    then codes "&apos;"
    else x ∷ []

replace_all-append :
    (c : ℕ) (by s t : Units) → replace_all c by (s ++ t) ≡ replace_all c by s ++ replace_all c by t
unfolding replace_all
replace_all-append c by [] t = refl
replace_all-append c by (x ∷ s) t = simp (replace_all-append c by s t, append_assoc)

html_escaped-append : (s t : Units) → html_escaped (s ++ t) ≡ html_escaped s ++ html_escaped t
unfolding html_escaped
html_escaped-append s t = simp replace_all-append

html_escaped-unit : (x : ℕ) → html_escaped (x ∷ []) ≡ entity x
unfolding html_escaped replace_all
html_escaped-unit x = ground arith

html_escaped-nil : html_escaped [] ≡ []
unfolding html_escaped replace_all
html_escaped-nil = refl

-- No replacement touches what an earlier one has put in: the five together turn each unit of the
-- text into its own entity, in one pass.
pub html_escaped-flat_map : (s : Units) → html_escaped s ≡ flat_map entity s
unfolding flat_map
html_escaped-flat_map [] = html_escaped-nil
html_escaped-flat_map (x ∷ s) =
    html_escaped-append (x ∷ []) s
    ∙ ap (λ r. r ++ html_escaped s) (html_escaped-unit x)
    ∙ ap (λ r. entity x ++ r) (html_escaped-flat_map s)
