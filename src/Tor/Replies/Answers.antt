-- ===== src/Tor/Replies/Answers.antt =====
-- What Tor answers to commands, line by line (src/libtego/source/tor/TorControlSocket.cpp).
use ricochet_irc.Prelude.{ℕ, List, [], ◌∷◌, ◌++◌}
use ricochet_irc.Wire.Frame.{Bytes}
use ricochet_irc.Tor.Replies.{crlf}

-- The three digits of a status, and what follows the fourth byte.
pub record StatusText : Type 0 where
  pub first : ℕ
  pub second : ℕ
  pub third : ℕ
  pub text : Bytes

abbrev pub digits : StatusText → Bytes
digits l = l.first ∷ l.second ∷ l.third ∷ []

-- A line with more to come, alone or with lines of data behind it.
pub data Middle : Type 0 where
  plain : StatusText → Middle
  with_data : StatusText → List Bytes → Middle

pub record Reply : Type 0 where
  pub middles : List Middle
  pub last : StatusText

abbrev pub status_bytes : ℕ → StatusText → Bytes
status_bytes type l = l.first ∷ l.second ∷ l.third ∷ type ∷ (l.text ++ crlf)

abbrev pub dot : Bytes
dot = b'.' ∷ []

-- The lines of data, the dot behind them, and the rest.
unfoldable pub data_bytes : List Bytes → List Bytes → List Bytes
data_bytes [] rest = (dot ++ crlf) ∷ rest
data_bytes (d ∷ ds) rest = (d ++ crlf) ∷ data_bytes ds rest

unfoldable pub middle_bytes : List Middle → List Bytes → List Bytes
middle_bytes [] rest = rest
middle_bytes (plain l ∷ ms) rest = status_bytes b'-' l ∷ middle_bytes ms rest
middle_bytes (with_data l ds ∷ ms) rest = status_bytes b'+' l ∷ data_bytes ds (middle_bytes ms rest)

-- What Tor writes for replies, line by line.
unfoldable pub reply_bytes : List Reply → List Bytes
reply_bytes [] = []
reply_bytes (r ∷ rs) = middle_bytes r.middles (status_bytes b' ' r.last ∷ reply_bytes rs)
