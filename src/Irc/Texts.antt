-- ===== src/Irc/Texts.antt =====
-- The texts of the IRC server (src/irc/IrcConnection.cpp): the regular expressions of names, the
-- templates of its messages (QString::arg), and lists of words. A text is the list of its code
-- points.
use Prim.Native.Char.{}
use ricochet_irc.Prelude.{
  ℕ, zero, suc, ◌+◌, ◌-◌, ◌*◌, ◌/◌, ◌%◌, Bool, true, false, ◌&&◌, ◌||◌, not, List, [], ◌∷◌, ◌++◌,
  Option, none, some, codes, ltb, leb, ◌==◌, if◌then◌else◌, same,
}
use ricochet_irc.Connection.State.{Text}

abbrev pub newline : ℕ
newline = 10

abbrev between : ℕ → ℕ → ℕ → Bool
between lo hi c = leb lo c && leb c hi

abbrev pub contains_char : ℕ → Text → Bool
contains_char c [] = false
contains_char c (d ∷ ds) = (d == c) || contains_char c ds

abbrev is_letter : ℕ → Bool
is_letter c = between 65 90 c || between 97 122 c

abbrev is_digit : ℕ → Bool
is_digit c = between 48 57 c

-- `[][\`_^{|}A-Za-z]`.
abbrev pub is_nick_start : ℕ → Bool
is_nick_start c = contains_char c (codes "][`_^{|}") || is_letter c

-- `[][\`_^{|}A-Za-z0-9-]`.
abbrev pub is_nick_char : ℕ → Bool
is_nick_char c = is_nick_start c || (is_digit c || c == 45)

-- `[^\x00\x07\x0a\x0d ,:]`.
abbrev pub is_channel_char : ℕ → Bool
is_channel_char c = not (contains_char c (0 ∷ 7 ∷ 10 ∷ 13 ∷ codes " ,:"))

-- Up to `n` characters of a class and the end of the text; `$` stands before a last newline, too.
abbrev pub all_to_end : (ℕ → Bool) → ℕ → Text → Bool
all_to_end p n [] = true
all_to_end p zero (c ∷ cs) = (c == newline) && same cs []
all_to_end p (suc n) (c ∷ cs) = ((c == newline) && same cs []) || (p c && all_to_end p n cs)

-- `re_nickname`.
abbrev pub is_nickname : Text → Bool
is_nickname [] = false
is_nickname (c ∷ cs) = is_nick_start c && all_to_end is_nick_char 50 cs

-- `re_user`.
abbrev pub is_user_name : Text → Bool
is_user_name = is_nickname

-- `re_realname`, which looks at the first character only.
abbrev pub is_realname : Text → Bool
is_realname [] = false
is_realname (c ∷ cs) = is_letter c || (is_digit c || contains_char c (codes ".-"))

-- `re_channel`.
abbrev pub is_channel_name : Text → Bool
is_channel_name [] = false
is_channel_name (c ∷ cs) = contains_char c (codes "&#+!") && all_to_end is_channel_char 50 cs

-- `split(" ")`, which has one part at least.
abbrev add_char : ℕ → List Text → List Text
add_char c [] = (c ∷ []) ∷ []
add_char c (w ∷ ws) = (c ∷ w) ∷ ws

unfoldable pub split_at : ℕ → Text → List Text
split_at sep [] = [] ∷ []
split_at sep (c ∷ cs) =
    let rest = split_at sep cs in if c == sep then [] ∷ rest else add_char c rest

abbrev pub split_space : Text → List Text
split_space = split_at 32

-- The number behind a `%`, after an `L` if there is one, with the length of the marker.
abbrev marker_number : Text → Option (ℕ × ℕ)
marker_number [] = none
marker_number (c ∷ []) = if is_digit c then some (c - 48, 1) else none
marker_number (c ∷ d ∷ r) =
    if is_digit c
    then if is_digit d then some (10 * (c - 48) + (d - 48), 2) else some (c - 48, 1)
    else none

abbrev marker : Text → Option (ℕ × ℕ)
marker [] = none
marker (c ∷ r) =
    if c == 76
    then elim (marker_number r) [ none ↦ none | some m ↦ some (m.0, suc m.1) ]
    else marker_number (c ∷ r)

abbrev marker_at : ℕ → Text → Option (ℕ × ℕ)
marker_at c r = if c == 37 then marker r else none

abbrev least : Option (ℕ × ℕ) → Option ℕ → Option ℕ
least none o = o
least (some m) none = some m.0
least (some m) (some k) = if ltb m.0 k then some m.0 else some k

-- The least number of the markers in a text.
abbrev lowest_marker : Text → Option ℕ
lowest_marker [] = none
lowest_marker (c ∷ r) = least (marker_at c r) (lowest_marker r)

-- The length of the marker with the number `n` that begins here.
abbrev hit : ℕ → ℕ → Text → Option ℕ
hit n c r = elim (marker_at c r) [ none ↦ none | some m ↦ if m.0 == n then some m.1 else none ]

-- Replaces the markers with the number `n`; `skip` characters belong to the last one.
abbrev fill_marker : ℕ → Text → ℕ → Text → Text
fill_marker n a skip [] = []
fill_marker n a (suc skip) (c ∷ r) = fill_marker n a skip r
fill_marker n a zero (c ∷ r) = elim (hit n c r) [
  | none ↦ c ∷ fill_marker n a zero r
  | some len ↦ a ++ fill_marker n a len r
]

-- `QString::arg`: every marker with the least number is replaced, also one that an earlier argument
-- brought in.
unfoldable pub arg : Text → Text → Text
arg text a = elim (lowest_marker text) [ none ↦ text | some n ↦ fill_marker n a zero text ]

abbrev pub args : Text → List Text → Text
args text [] = text
args text (a ∷ as_) = args (arg text a) as_

-- `%03d`.
abbrev pub three_digits : ℕ → Text
three_digits n = (48 + n / 100 % 10) ∷ (48 + n / 10 % 10) ∷ (48 + n % 10) ∷ []

abbrev decimal_loop : ℕ → ℕ → Text → Text
decimal_loop zero n acc = acc
decimal_loop (suc fuel) n acc =
    let longer = decimal_loop fuel (n / 10) ((48 + n % 10) ∷ acc) in
    if ltb n 10 then (48 + n) ∷ acc else longer

abbrev pub decimal : ℕ → Text
decimal n = decimal_loop (suc n) n []

-- `trimmed`.
module _ (is_space : ℕ → Bool) where
  abbrev drop_spaces : Text → Text
  drop_spaces [] = []
  drop_spaces (c ∷ cs) = if is_space c then drop_spaces cs else c ∷ cs

  -- Without the spaces at the end.
  abbrev strip_end : Text → Text
  strip_end [] = []
  strip_end (c ∷ cs) =
      let rest = strip_end cs in if is_space c && same rest [] then [] else c ∷ rest

  abbrev pub trimmed : Text → Text
  trimmed t = drop_spaces (strip_end t)
