-- ===== src/Tor/Quoting.antt =====
-- Quoted strings (src/libtego/source/utils/StringUtil.cpp).
pub mod Splitting
use ricochet_irc.Prelude.{
  ℕ, suc, ◌≡◌, refl, ap, sym, ◌∙◌, Bool, true, false, not, ◌&&◌, ◌||◌, List, [], ◌∷◌, ◌++◌,
  if◌then◌else◌, ltb, ◌==◌, length, arith, Bool-cases, inl, inr, if_cases, if_both, append_assoc,
  map, ◌+◌, length-append, ==_iff,
}
use ricochet_irc.Wire.Frame.{Bytes}

abbrev pub quote : ℕ
quote = b'"'

abbrev pub backslash : ℕ
backslash = b'\\'

unfoldable pub escaped : Bytes → Bytes
escaped [] = quote ∷ []
escaped (x ∷ xs) =
    let out = escaped xs in
    if x == quote
    then backslash ∷ quote ∷ out
    else if x == backslash
    then backslash ∷ backslash ∷ out
    else x ∷ out

unfoldable pub quoted_string : Bytes → Bytes
quoted_string string = quote ∷ escaped string

-- The loop of `unquotedString`: behind a backslash, a byte is taken as it is.
unfoldable pub unescaped : Bool → Bytes → Bytes
unescaped _ [] = []
unescaped true (x ∷ xs) = x ∷ unescaped false xs
unescaped false (x ∷ xs) =
    let out = unescaped (x == backslash) xs in
    if x == quote then [] else if x == backslash then out else x ∷ out

abbrev starts_with_quote : Bytes → Bool
starts_with_quote [] = false
starts_with_quote (x ∷ xs) = x == quote

abbrev tail : Bytes → Bytes
tail [] = []
tail (x ∷ xs) = xs

unfoldable pub unquoted_string : Bytes → Bytes
unquoted_string string =
    if ltb (length string) 2 || not (starts_with_quote string)
    then string
    else unescaped false (tail string)

-- The loop of `splitQuotedStrings`: `piece` are the bytes since `start`, and `skips` is true for the
-- byte behind a backslash inside quotes.
unfoldable pub split_loop : ℕ → Bool → Bool → Bytes → Bytes → List Bytes
split_loop separator inquote skips piece [] = if length piece == 0 then [] else piece ∷ []
split_loop separator inquote true piece (x ∷ xs) =
    split_loop separator inquote false (piece ++ x ∷ []) xs
split_loop separator inquote false piece (x ∷ xs) =
    let inquote' = if x == quote then not inquote else inquote in
    let ends = not inquote' && x == separator in
    let out =
      split_loop separator inquote' (x == backslash && inquote)
        (if ends then [] else piece ++ x ∷ []) xs in
    if ends then piece ∷ out else out

unfoldable pub split_quoted_strings : Bytes → ℕ → List Bytes
split_quoted_strings input separator = split_loop separator false false [] input

pub eq_of : (x y : ℕ) → (x == y) ≡ true → x ≡ y
eq_of x y e = ground (arith, e)

unescaped-plain :
    (x : ℕ) (xs : Bytes)
    → (x == quote) ≡ false
    → (x == backslash) ≡ false
    → unescaped false (x ∷ xs) ≡ x ∷ unescaped false xs
unfolding unescaped
unescaped-plain x xs n m = rw (n, m) refl

unescaped-escaped : (s rest : Bytes) → unescaped false (escaped s ++ rest) ≡ s
unfolding unescaped escaped
unescaped-escaped [] rest = refl
unescaped-escaped (x ∷ xs) rest =
    let IH = unescaped-escaped xs rest in
    if_cases (λ l. unescaped false (l ++ rest) ≡ x ∷ xs) (x == quote) _ _
      (λ e. ap (λ l. quote ∷ l) IH ∙ ap (λ y. y ∷ xs) (sym (eq_of x quote e)))
      (λ n.
        if_cases (λ l. unescaped false (l ++ rest) ≡ x ∷ xs) (x == backslash) _ _
          (λ e. ap (λ l. backslash ∷ l) IH ∙ ap (λ y. y ∷ xs) (sym (eq_of x backslash e)))
          (λ m. unescaped-plain x (escaped xs ++ rest) n m ∙ ap (λ l. x ∷ l) IH))

escaped-length : (s rest : Bytes) → ltb (length (quote ∷ (escaped s ++ rest))) 2 ≡ false
unfolding escaped
escaped-length [] rest = ground arith
escaped-length (x ∷ xs) rest =
    if_both (λ l. ltb (length (quote ∷ (l ++ rest))) 2 ≡ false) (x == quote) _ _ (ground arith)
      (if_both (λ l. ltb (length (quote ∷ (l ++ rest))) 2 ≡ false) (x == backslash) _ _
        (ground arith) (ground arith))

-- What is quoted is read back, whatever follows the closing quote.
pub unquoted-quoted : (s rest : Bytes) → unquoted_string (quoted_string s ++ rest) ≡ s
unfolding unquoted_string quoted_string
unquoted-quoted s rest = rw (escaped-length s rest) (unescaped-escaped s rest)
