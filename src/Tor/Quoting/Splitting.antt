-- ===== src/Tor/Quoting/Splitting.antt =====
-- The loop of `splitQuotedStrings` on quoted strings (src/libtego/source/utils/StringUtil.cpp).
use ricochet_irc.Prelude.{
  ℕ, ◌≡◌, refl, ap, sym, ◌∙◌, Bool, true, false, ◌&&◌, List, [], ◌∷◌, ◌++◌, ◌==◌, ==_refl, arith,
  append_assoc, append-nil, map, if_cases,
}
use ricochet_irc.Wire.Frame.{Bytes}
use ricochet_irc.Tor.Quoting.{
  quote, backslash, escaped, quoted_string, unquoted_string, split_loop, split_quoted_strings,
  unquoted-quoted,
}

-- Quoted strings with the separator between them.
unfoldable pub joined : ℕ → List Bytes → Bytes
joined separator [] = []
joined separator (s ∷ []) = quoted_string s
joined separator (s ∷ t ∷ rest) = quoted_string s ++ separator ∷ joined separator (t ∷ rest)

and_false : (b : Bool) → (b && false) ≡ false
and_false b = ground arith

module _ (separator : ℕ) where
  inside-plain :
      (x : ℕ) (p xs : Bytes)
      → (x == quote) ≡ false
      → (x == backslash) ≡ false
      → split_loop separator true false p (x ∷ xs)
        ≡ split_loop separator true false (p ++ x ∷ []) xs
  unfolding split_loop
  inside-plain x p xs n m = rw (n, m) refl

  -- The bytes of a quoted string, up to its closing quote, are in one piece.
  loop-escaped :
      (s p rest : Bytes)
      → (quote == separator) ≡ false
      → split_loop separator true false p (escaped s ++ rest)
        ≡ split_loop separator false false (p ++ escaped s) rest
  unfolding split_loop escaped
  loop-escaped [] p rest d = rw d refl
  loop-escaped (x ∷ xs) p rest d =
      if_cases
        (λ l.
          split_loop separator true false p (l ++ rest)
          ≡ split_loop separator false false (p ++ l) rest)
        (x == quote) _ _
        (λ e.
          loop-escaped xs ((p ++ backslash ∷ []) ++ quote ∷ []) rest d
          ∙ regrouped backslash quote p xs)
        (λ n.
          if_cases
            (λ l.
              split_loop separator true false p (l ++ rest)
              ≡ split_loop separator false false (p ++ l) rest)
            (x == backslash) _ _
            (λ e.
              loop-escaped xs ((p ++ backslash ∷ []) ++ backslash ∷ []) rest d
              ∙ regrouped backslash backslash p xs)
            (λ m.
              inside-plain x p (escaped xs ++ rest) n m
              ∙ loop-escaped xs (p ++ x ∷ []) rest d
              ∙ ap (λ q. split_loop separator false false q rest)
                  (append_assoc p (x ∷ []) (escaped xs))))
    where
      regrouped :
          (a b : ℕ) (p xs : Bytes)
          → split_loop separator false false (((p ++ a ∷ []) ++ b ∷ []) ++ escaped xs) rest
            ≡ split_loop separator false false (p ++ a ∷ b ∷ escaped xs) rest
      regrouped a b p xs =
          ap (λ q. split_loop separator false false q rest)
            (append_assoc (p ++ a ∷ []) (b ∷ []) (escaped xs)
              ∙ append_assoc p (a ∷ []) (b ∷ escaped xs))

  loop-quoted :
      (s rest : Bytes)
      → (quote == separator) ≡ false
      → split_loop separator false false [] (quoted_string s ++ rest)
        ≡ split_loop separator false false (quoted_string s) rest
  unfolding split_loop quoted_string
  loop-quoted s rest d = loop-escaped s (quote ∷ []) rest d

  loop-separator :
      (p rest : Bytes)
      → (quote == separator) ≡ false
      → (separator == quote) ≡ false
      → split_loop separator false false p (separator ∷ rest)
        ≡ p ∷ split_loop separator false false [] rest
  unfolding split_loop
  loop-separator p rest d d' = rw (d', ==_refl separator, and_false (separator == backslash)) refl

  loop-end :
      (s : Bytes) → split_loop separator false false (quoted_string s) [] ≡ quoted_string s ∷ []
  unfolding split_loop quoted_string
  loop-end s = ground arith

  loop-joined :
      (ss : List Bytes)
      → (quote == separator) ≡ false
      → split_loop separator false false [] (joined separator ss) ≡ map quoted_string ss
  unfolding joined split_loop
  loop-joined [] d = refl
  loop-joined (s ∷ []) d =
      ap (split_loop separator false false []) (sym (append-nil (quoted_string s)))
      ∙ loop-quoted s [] d
      ∙ loop-end s
  loop-joined (s ∷ t ∷ rest) d =
      loop-quoted s (separator ∷ joined separator (t ∷ rest)) d
      ∙ loop-separator (quoted_string s) (joined separator (t ∷ rest)) d (ground arith)
      ∙ ap (◌∷◌ (quoted_string s)) (loop-joined (t ∷ rest) d)

unquoted-map : (ss : List Bytes) → map unquoted_string (map quoted_string ss) ≡ ss
unquoted-map [] = refl
unquoted-map (s ∷ ss) =
    ap (λ q. unquoted_string q ∷ map unquoted_string (map quoted_string ss))
      (sym (append-nil (quoted_string s)))
    ∙ ap (λ t. t ∷ map unquoted_string (map quoted_string ss)) (unquoted-quoted s [])
    ∙ ap (λ l. s ∷ l) (unquoted-map ss)

-- Quoted strings with a separator other than the quote between them are split where they were joined,
-- and unquoting each of them gives the strings, whatever bytes they have.
pub split-joined :
    (separator : ℕ) (ss : List Bytes)
    → (quote == separator) ≡ false
    → map unquoted_string (split_quoted_strings (joined separator ss) separator) ≡ ss
unfolding split_quoted_strings
split-joined separator ss d =
    ap (map unquoted_string) (loop-joined separator ss d) ∙ unquoted-map ss
