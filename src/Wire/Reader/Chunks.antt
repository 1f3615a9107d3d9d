-- ===== src/Wire/Reader/Chunks.antt =====
-- The packet loop of `socketReadable` does not depend on how TCP cuts the stream.
use ricochet_irc.Prelude.{
  ℕ, zero, suc, ◌≤◌, ◌<◌, ◌≡◌, refl, sym, ◌∙◌, ◌⊎◌, inl, inr, true, [], ◌∷◌, ◌++◌, if◌then◌else◌,
  length, arith, Bool-cases, append_assoc,
}
use ricochet_irc.Wire.Frame.{
  Bytes, Next, incomplete, corrupted, packet, next_packet, next_packet-append,
  next_packet-corrupted, next_packet-length,
}
use ricochet_irc.Wire.Reader.{Session, Reader, left_in, read_packets, read_all, receive}

Next-cases :
    (n : Next)
    → (n ≡ incomplete)
      ⊎ ((n ≡ corrupted)
          ⊎ ((id : ℕ) × (payload : Bytes) × (rest : Bytes) × (n ≡ packet id payload rest)))
Next-cases incomplete = inl refl
Next-cases corrupted = inr (inl refl)
Next-cases (packet id payload rest) = inr (inr (id, payload, rest, refl))

module _ {S : Type 0} (ops : Session S) where
  open ops use {on_packet, abort, is_readable, abort_unreadable}

  length-left_in : (s : S) (rest : Bytes) → length (left_in ops s rest) ≤ length rest
  length-left_in s rest = ground arith

  read_packets-empty : (fuel : ℕ) (s : S) → read_packets ops fuel [] s ≡ ([], s)
  unfolding read_packets next_packet
  read_packets-empty zero s = refl
  read_packets-empty (suc fuel) s = refl

  module _ (fuel : ℕ) (buf : Bytes) (s : S) where
    step_packet :
        (id : ℕ) (payload rest : Bytes)
        → next_packet buf ≡ packet id payload rest
        → read_packets ops (suc fuel) buf s
          ≡ read_packets ops fuel
              (left_in ops (on_packet id payload s) rest)
              (on_packet id payload s)
    unfolding read_packets
    step_packet id payload rest e = rw (e, read_packets)

    step_incomplete : next_packet buf ≡ incomplete → read_packets ops (suc fuel) buf s ≡ (buf, s)
    unfolding read_packets
    step_incomplete e = rw (e, read_packets)

    step_corrupted : next_packet buf ≡ corrupted → read_packets ops (suc fuel) buf s ≡ ([], abort s)
    unfolding read_packets
    step_corrupted e = rw (e, read_packets)

  -- Enough fuel: any two amounts that are at least the buffer's length give the same result, so the
  -- loop has ended by itself, with the same bytes left and the same session.
  pub read_packets-fuel :
      (f g : ℕ) (buf : Bytes) (s : S)
      → length buf ≤ f
      → length buf ≤ g
      → read_packets ops f buf s ≡ read_packets ops g buf s
  read_packets-fuel zero g [] s hf hg = unfold read_packets in sym (read_packets-empty g s)
  read_packets-fuel zero g (b ∷ bs) s hf hg = absurd (omega arith)
  read_packets-fuel (suc f) zero [] s hf hg = unfold read_packets in read_packets-empty (suc f) s
  read_packets-fuel (suc f) zero (b ∷ bs) s hf hg = absurd (omega arith)
  read_packets-fuel (suc f) (suc g) buf s hf hg = elim (Next-cases (next_packet buf)) [
    | inl e ↦ step_incomplete f buf s e ∙ sym (step_incomplete g buf s e)
    | inr (inl e) ↦ step_corrupted f buf s e ∙ sym (step_corrupted g buf s e)
    | inr (inr (id, payload, rest, e)) ↦
        let s' = on_packet id payload s in
        let shorter = next_packet-length buf id payload rest e in
        let kept = length-left_in s' rest in
        step_packet f buf s id payload rest e
        ∙ read_packets-fuel f g (left_in ops s' rest) s' (omega arith) (omega arith)
        ∙ sym (step_packet g buf s id payload rest e)
  ]

  pub read_all-empty : (s : S) → read_all ops [] s ≡ ([], s)
  unfolding read_all
  read_all-empty s = read_packets-empty 0 s

  pub read_all-packet :
      (buf : Bytes) (s : S) (id : ℕ) (payload rest : Bytes)
      → next_packet buf ≡ packet id payload rest
      → read_all ops buf s
        ≡ read_all ops (left_in ops (on_packet id payload s) rest) (on_packet id payload s)
  unfolding read_all
  read_all-packet [] s id payload rest e = absurd (unfold next_packet in cc)
  read_all-packet (b ∷ bs) s id payload rest e =
      let s' = on_packet id payload s in
      let shorter = next_packet-length (b ∷ bs) id payload rest e in
      let kept = length-left_in s' rest in
      step_packet (length bs) (b ∷ bs) s id payload rest e
      ∙ read_packets-fuel (length bs) (length (left_in ops s' rest)) (left_in ops s' rest) s'
          (omega arith) (omega arith)

  pub read_all-incomplete :
      (buf : Bytes) (s : S) → next_packet buf ≡ incomplete → read_all ops buf s ≡ (buf, s)
  unfolding read_all
  read_all-incomplete [] s e = read_packets-empty 0 s
  read_all-incomplete (b ∷ bs) s e = step_incomplete (length bs) (b ∷ bs) s e

  pub read_all-corrupted :
      (buf : Bytes) (s : S) → next_packet buf ≡ corrupted → read_all ops buf s ≡ ([], abort s)
  unfolding read_all
  read_all-corrupted [] s e = absurd (unfold next_packet in cc)
  read_all-corrupted (b ∷ bs) s e = step_corrupted (length bs) (b ∷ bs) s e

  -- The loop goes on with the bytes that come later, unless the socket was aborted.
  pub resume : Bytes × S → Bytes → Bytes × S
  resume (buf, s) more = if is_readable s then read_all ops (buf ++ more) s else (buf, s)

  -- One packet further: `again` is the claim for the buffer that is left.
  append_packet :
      (buf more : Bytes) (s : S) (id : ℕ) (payload rest : Bytes)
      → next_packet buf ≡ packet id payload rest
      → (is_readable (on_packet id payload s) ≡ true
          → read_all ops (rest ++ more) (on_packet id payload s)
            ≡ resume (read_all ops rest (on_packet id payload s)) more)
      → read_all ops (buf ++ more) s ≡ resume (read_all ops buf s) more
  unfolding resume
  append_packet buf more s id payload rest e again =
      read_all-packet (buf ++ more) s id payload (rest ++ more)
        (next_packet-append buf more id payload rest e)
      ∙ rw (read_all-packet buf s id payload rest e)
          (elim (Bool-cases (is_readable (on_packet id payload s))) [
            | inl r ↦ rw r (again r)
            | inr r ↦ rw r (rw (read_all-empty (on_packet id payload s)) (rw r refl))
          ])

  -- `n` bounds the buffer's length.
  read_all-append_bounded :
      (n : ℕ) (buf more : Bytes) (s : S)
      → length buf < n
      → is_readable s ≡ true
      → read_all ops (buf ++ more) s ≡ resume (read_all ops buf s) more
  unfolding resume
  read_all-append_bounded zero buf more s h r = absurd (omega arith)
  read_all-append_bounded (suc n) buf more s h r = elim (Next-cases (next_packet buf)) [
    | inl e ↦ rw (read_all-incomplete buf s e, resume) (rw r refl)
    | inr (inl e) ↦
        read_all-corrupted (buf ++ more) s (next_packet-corrupted buf more e)
        ∙ rw (read_all-corrupted buf s e, resume) (rw (abort_unreadable s) refl)
    | inr (inr (id, payload, rest, e)) ↦
        let shorter = next_packet-length buf id payload rest e in
        append_packet buf more s id payload rest e
          (read_all-append_bounded n rest more (on_packet id payload s) (omega arith))
  ]

  pub read_all-append :
      (buf more : Bytes) (s : S)
      → is_readable s ≡ true
      → read_all ops (buf ++ more) s ≡ resume (read_all ops buf s) more
  read_all-append buf more s r =
      read_all-append_bounded (suc (length buf)) buf more s (omega arith) r

  -- Bytes that arrive in two pieces leave the connection as if they had arrived in one, once the
  -- handshake is done: the same packets are handled in the same order and the same bytes wait.
  pub receive_in_pieces :
      (r : Reader S) (a b : Bytes)
      → r.handshake_done ≡ true
      → receive ops (receive ops r a) b ≡ receive ops r (a ++ b)
  unfolding receive resume
  receive_in_pieces r a b done =
      ground (arith, read_all-append (r.buffer ++ a) b r.session, append_assoc r.buffer a b)
