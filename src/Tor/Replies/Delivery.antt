-- ===== src/Tor/Replies/Delivery.antt =====
-- Each command is told its own reply (src/libtego/source/tor/TorControlSocket.cpp).
use ricochet_irc.Prelude.{
  ℕ, zero, suc, ◌-◌, ◌≤◌, ◌≡◌, refl, ap, sym, ◌∙◌, true, false, List, [], ◌∷◌, ◌++◌, Option, none,
  some, ltb, leb, length, take, same, append-nil, map, ℤ, append_assoc, length-append, take-append,
  drop-append, arith, All,
}
use ricochet_irc.Wire.Frame.{Bytes}
use ricochet_irc.Tor.Replies.{
  Told, on_reply, on_finished, on_data_line, on_data_finished, ControlSocket, crlf, max_line,
  ends_with, is_event, data_line, reply_line, status_line, process_line, process_read, process,
}
use ricochet_irc.Tor.Replies.Answers.{
  StatusText, digits, Middle, plain, with_data, Reply, status_bytes, dot, data_bytes, middle_bytes,
  reply_bytes,
}

chopped : (x : Bytes) → take (length (x ++ crlf) - 2) (x ++ crlf) ≡ x
chopped x =
    let n : length (x ++ crlf) - 2 ≡ length x = omega (arith, length-append x crlf) in
    rw n (take-append x crlf)

ends_with-crlf : (x : Bytes) → ends_with crlf (x ++ crlf) ≡ true
ends_with-crlf x =
    let n : length (x ++ crlf) - 2 ≡ length x = omega (arith, length-append x crlf) in
    let m : leb 2 (length (x ++ crlf)) ≡ true = ground (arith, length-append x crlf) in
    rw (n, m, drop-append x crlf) refl

take_all : (n : ℕ) (x : Bytes) → length x ≤ n → take n x ≡ x
take_all zero [] h = refl
take_all (suc n) [] h = refl
take_all zero (y ∷ x) h = absurd (omega arith)
take_all (suc n) (y ∷ x) h = ap (◌∷◌ y) (take_all n x (omega arith))

-- A line that is short enough is read with its end.
readable : (x : Bytes) → length x ≤ 5118 → take max_line (x ++ crlf) ≡ x ++ crlf
readable x h = take_all max_line (x ++ crlf) (omega (arith, length-append x crlf))

long_enough : (n : ℕ) → ltb (suc (suc (suc (suc n)))) 4 ≡ false
long_enough n = ground arith

module _ (to_int : Bytes → ℤ) where
  abbrev pub code : StatusText → ℤ
  code l = to_int (digits l)

  -- What the command `k` is told.
  unfoldable pub told_middles : ℕ → List Middle → List Told
  told_middles k [] = []
  told_middles k (plain l ∷ ms) = on_reply k (code l) l.text ∷ told_middles k ms
  told_middles k (with_data l ds ∷ ms) =
      on_reply k (code l) l.text
      ∷ (map (on_data_line k) ds ++ on_data_finished k ∷ told_middles k ms)

  unfoldable pub told_all : List (ℕ × Reply) → List Told
  told_all [] = []
  told_all ((k, r) ∷ rest) =
      told_middles k r.middles
      ++ on_reply k (code r.last) r.last.text ∷ on_finished k (code r.last) ∷ told_all rest

  -- A reply is not an event, no line of its data is a dot alone, and no line is longer than 5120
  -- bytes, its end included.
  abbrev pub IsPlainStatus : StatusText → Type 0
  IsPlainStatus l = (is_event (code l) ≡ false) × (length l.text ≤ 5114)

  abbrev pub IsPlainData : Bytes → Type 0
  IsPlainData d = (same d dot ≡ false) × (length d ≤ 5118)

  abbrev pub IsPlainMiddle : Middle → Type 0
  IsPlainMiddle (plain l) = IsPlainStatus l
  IsPlainMiddle (with_data l ds) = IsPlainStatus l × All IsPlainData ds

  abbrev pub IsPlainReply : Reply → Type 0
  IsPlainReply r = All IsPlainMiddle r.middles × IsPlainStatus r.last

  module _ (events : List (Bytes × ℕ)) where
    abbrev pub waiting : List (Option ℕ) → List Told → ControlSocket
    waiting queue told = record {
      command_queue = queue;
      event_commands = events;
      current_command = none;
      in_data_reply = false;
      told = told;
      has_error = false;
    }

    abbrev reading : ℕ → List (Option ℕ) → List Told → ControlSocket
    reading k queue told = record (waiting queue told) {
      current_command = some k;
      in_data_reply = true;
    }

    process_line-status :
        (type : ℕ) (l : StatusText) (queue : List (Option ℕ)) (told : List Told)
        → length l.text ≤ 5114
        → process_line to_int (status_bytes type l) (waiting queue told)
          ≡ status_line to_int (l.first ∷ l.second ∷ l.third ∷ type ∷ l.text) (waiting queue told)
    unfolding process_read
    process_line-status type l queue told h =
        let x = l.first ∷ l.second ∷ l.third ∷ type ∷ l.text in
        ap (λ f. process_read to_int f (waiting queue told)) (readable x (omega arith))
        ∙ rw (chopped x, ends_with-crlf x, long_enough (length l.text), process_read) refl

    process_line-final :
        (k : ℕ) (l : StatusText) (queue : List (Option ℕ)) (told : List Told)
        → IsPlainStatus l
        → process_line to_int (status_bytes b' ' l) (waiting (some k ∷ queue) told)
          ≡ waiting queue ((told ++ on_reply k (code l) l.text ∷ []) ++ on_finished k (code l) ∷ [])
    unfolding status_line reply_line
    process_line-final k l queue told p =
        process_line-status b' ' l (some k ∷ queue) told p.1 ∙ rw p.0 refl

    process_line-plain :
        (k : ℕ) (l : StatusText) (queue : List (Option ℕ)) (told : List Told)
        → IsPlainStatus l
        → process_line to_int (status_bytes b'-' l) (waiting (some k ∷ queue) told)
          ≡ waiting (some k ∷ queue) (told ++ on_reply k (code l) l.text ∷ [])
    unfolding status_line reply_line
    process_line-plain k l queue told p =
        process_line-status b'-' l (some k ∷ queue) told p.1 ∙ rw p.0 refl

    process_line-with_data :
        (k : ℕ) (l : StatusText) (queue : List (Option ℕ)) (told : List Told)
        → IsPlainStatus l
        → process_line to_int (status_bytes b'+' l) (waiting (some k ∷ queue) told)
          ≡ reading k (some k ∷ queue) (told ++ on_reply k (code l) l.text ∷ [])
    unfolding status_line reply_line
    process_line-with_data k l queue told p =
        process_line-status b'+' l (some k ∷ queue) told p.1 ∙ rw p.0 refl

    process_line-data :
        (k : ℕ) (d : Bytes) (queue : List (Option ℕ)) (told : List Told)
        → IsPlainData d
        → process_line to_int (d ++ crlf) (reading k queue told)
          ≡ reading k queue (told ++ on_data_line k d ∷ [])
    unfolding process_read data_line
    process_line-data k d queue told p =
        ap (λ f. process_read to_int f (reading k queue told)) (readable d p.1)
        ∙ rw (chopped d, ends_with-crlf d, p.0, process_read) refl

    process_line-dot :
        (k : ℕ) (queue : List (Option ℕ)) (told : List Told)
        → process_line to_int (dot ++ crlf) (reading k queue told)
          ≡ waiting queue (told ++ on_data_finished k ∷ [])
    unfolding process_read data_line
    process_line-dot k queue told = refl

    process-data :
        (k : ℕ) (ds rest : List Bytes) (queue : List (Option ℕ)) (told : List Told)
        → All IsPlainData ds
        → process to_int (data_bytes ds rest) (reading k queue told)
          ≡ process to_int rest
              (waiting queue (told ++ (map (on_data_line k) ds ++ on_data_finished k ∷ [])))
    unfolding process data_bytes
    process-data k [] rest queue told p = ap (process to_int rest) (process_line-dot k queue told)
    process-data k (d ∷ ds) rest queue told p =
        ap (process to_int (data_bytes ds rest)) (process_line-data k d queue told p.0)
        ∙ process-data k ds rest queue (told ++ on_data_line k d ∷ []) p.1
        ∙ ap (λ t. process to_int rest (waiting queue t))
            (append_assoc told (on_data_line k d ∷ []) _)

    process-middles :
        (k : ℕ) (ms : List Middle) (rest : List Bytes) (queue : List (Option ℕ)) (told : List Told)
        → All IsPlainMiddle ms
        → process to_int (middle_bytes ms rest) (waiting (some k ∷ queue) told)
          ≡ process to_int rest (waiting (some k ∷ queue) (told ++ told_middles k ms))
    unfolding process middle_bytes told_middles
    process-middles k [] rest queue told p =
        ap (λ t. process to_int rest (waiting (some k ∷ queue) t)) (sym (append-nil told))
    process-middles k (plain l ∷ ms) rest queue told p =
        ap (process to_int (middle_bytes ms rest)) (process_line-plain k l queue told p.0)
        ∙ process-middles k ms rest queue (told ++ on_reply k (code l) l.text ∷ []) p.1
        ∙ ap (λ t. process to_int rest (waiting (some k ∷ queue) t))
            (append_assoc told (on_reply k (code l) l.text ∷ []) (told_middles k ms))
    process-middles k (with_data l ds ∷ ms) rest queue told p =
        let told1 = told ++ on_reply k (code l) l.text ∷ [] in
        let block = map (on_data_line k) ds ++ on_data_finished k ∷ [] in
        ap (process to_int (data_bytes ds (middle_bytes ms rest)))
          (process_line-with_data k l queue told p.0.0)
        ∙ process-data k ds (middle_bytes ms rest) (some k ∷ queue) told1 p.0.1
        ∙ process-middles k ms rest queue (told1 ++ block) p.1
        ∙ ap (λ t. process to_int rest (waiting (some k ∷ queue) t)) (simp append_assoc)

    -- Commands wait in the queue, and Tor answers each of them in turn, by lines alone, blocks of data
    -- and a last line, none of which is an event or, with its end, longer than 5120 bytes: then each command is told its own reply, line by
    -- line, and nothing else; all of them leave the queue, and the socket waits for the next reply.
    pub replies_delivered :
        (rs : List (ℕ × Reply)) (queue : List (Option ℕ)) (told : List Told)
        → All (λ (r : ℕ × Reply). IsPlainReply r.1) rs
        → process to_int
            (reply_bytes (map (λ (r : ℕ × Reply). r.1) rs))
            (waiting (map (λ (r : ℕ × Reply). some r.0) rs ++ queue) told)
          ≡ waiting queue (told ++ told_all rs)
    unfolding process reply_bytes told_all
    replies_delivered [] queue told p = ap (waiting queue) (sym (append-nil told))
    replies_delivered ((k, r) ∷ rs) queue told p =
        let others = map (λ (r : ℕ × Reply). some r.0) rs ++ queue in
        let rest = reply_bytes (map (λ (r : ℕ × Reply). r.1) rs) in
        let told1 = told ++ told_middles k r.middles in
        process-middles k r.middles (status_bytes b' ' r.last ∷ rest) others told p.0.0
        ∙ ap (process to_int rest) (process_line-final k r.last others told1 p.0.1)
        ∙ replies_delivered rs queue _ p.1
        ∙ ap (waiting queue) (simp append_assoc)
