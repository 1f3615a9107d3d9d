-- ===== src/Tests/Replies.antt =====
-- The control connection to Tor at concrete inputs (src/libtego/source/tor/TorControlSocket.cpp,
-- src/libtego/source/utils/StringUtil.cpp).
use ricochet_irc.Prelude.{ℕ, ◌≡◌, refl, List, [], ◌∷◌, ◌++◌, none, some, map, codes, pos, arith}
use ricochet_irc.Wire.Frame.{Bytes}
use ricochet_irc.Tor.Quoting.{quoted_string, unquoted_string, split_quoted_strings, unquoted-quoted}
use ricochet_irc.Tor.Quoting.Splitting.{joined, split-joined}
use ricochet_irc.Tor.Replies.{process, on_reply, on_finished, on_data_line, on_data_finished}
use ricochet_irc.Tor.Replies.Answers.{Reply, StatusText, plain, with_data, reply_bytes}
use ricochet_irc.Tor.Replies.Delivery.{waiting, told_all, told_middles, replies_delivered}

unquoted-quoted_example :
    unquoted_string (quoted_string (codes "a\"b\\") ++ codes " c") ≡ codes "a\"b\\"
unquoted-quoted_example = unquoted-quoted (codes "a\"b\\") (codes " c")

abbrev strings : List Bytes
strings = codes "a b" ∷ [] ∷ codes "\"" ∷ []

split-joined_example :
    map unquoted_string (split_quoted_strings (joined b' ' strings) b' ') ≡ strings
split-joined_example = split-joined b' ' strings refl

abbrev status : Bytes → StatusText
status text = record { first = b'2'; second = b'5'; third = b'0'; text = text }

abbrev answers : List (ℕ × Reply)
answers =
    (
      1,
      record {
        middles =
            plain (status (codes "a")) ∷ with_data (status (codes "b=")) (codes "x" ∷ []) ∷ [];
        last = status (codes "OK");
      },
    )
    ∷ (2, record { middles = []; last = status (codes "OK") })
    ∷ []

replies_delivered_example :
    process
      (λ _. pos 250)
      (reply_bytes (map (λ (r : ℕ × Reply). r.1) answers))
      (waiting (λ _. pos 250) [] (some 1 ∷ some 2 ∷ none ∷ []) [])
    ≡ waiting
        (λ _. pos 250)
        []
        (none ∷ [])
        (on_reply 1 (pos 250) (codes "a")
          ∷ on_reply 1 (pos 250) (codes "b=")
          ∷ on_data_line 1 (codes "x")
          ∷ on_data_finished 1
          ∷ on_reply 1 (pos 250) (codes "OK")
          ∷ on_finished 1 (pos 250)
          ∷ on_reply 2 (pos 250) (codes "OK")
          ∷ on_finished 2 (pos 250)
          ∷ [])
unfolding told_all told_middles
replies_delivered_example =
    replies_delivered (λ _. pos 250) [] answers (none ∷ []) []
      ((
        (
          ((refl, omega arith), (((refl, omega arith), ((refl, omega arith), tt)), tt)),
          (refl, omega arith),
        ),
        ((tt, (refl, omega arith)), tt),
      ))
