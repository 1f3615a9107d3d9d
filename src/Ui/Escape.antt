-- ===== src/Ui/Escape.antt =====
-- Escaping a text that is shown as rich text: `htmlEscaped` (src/ricochet-refresh/ui/utils.js), and
-- the message of src/ricochet-refresh/ui/ContactIDField.qml that it is made for. A text is a list
-- of UTF-16 units.
pub mod OnePass
pub mod Decoding
pub mod Markup
use Prim.Native.String.{String}
use ricochet_irc.Prelude.{ℕ, List, [], ◌∷◌, ◌++◌, if◌then◌else◌, ◌==◌, codes}

abbrev pub Units : Type 0
Units = List ℕ

-- `str.replace(/c/g, by)` for one unit `c`, and a replacement without `$`.
unfoldable pub replace_all : ℕ → Units → Units → Units
replace_all c by [] = []
replace_all c by (x ∷ s) = (if x == c then by else x ∷ []) ++ replace_all c by s

unfoldable pub html_escaped : Units → Units
html_escaped str =
    let str1 = replace_all b'&' (codes "&amp;") str in
    let str2 = replace_all b'<' (codes "&lt;") str1 in
    let str3 = replace_all b'>' (codes "&gt;") str2 in
    let str4 = replace_all b'"' (codes "&quot;") str3 in replace_all b'\'' (codes "&apos;") str4

-- `qsTr("<b>%1</b> is already your contact").arg(Utils.htmlEscaped(nickname))`, untranslated.
unfoldable pub already_contact : Units → Units
already_contact nickname =
    codes "<b>" ++ (html_escaped nickname ++ codes "</b> is already your contact")
