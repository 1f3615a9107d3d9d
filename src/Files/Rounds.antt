-- ===== src/Files/Rounds.antt =====
-- One round of a transfer: a chunk from the sender to the receiver, and its acknowledgement
-- (src/libtego/source/protocol/FileChannel.cpp).
use ricochet_irc.Prelude.{
  ℕ, ◌+◌, ◌≤◌, ◌<◌, ◌≡◌, refl, ap, sym, ◌∙◌, Bool, true, false, not, [], ◌∷◌, ◌++◌, none, some,
  Dict, find, put, ltb, ◌==◌, length, arith, find-put, ==_refl, length-append, length-take,
  take-append-drop, append_assoc, append-nil,
}
use ricochet_irc.Wire.Frame.{Bytes}
use ricochet_irc.Connection.State.{inbound, outbound, is_inbound}
use ricochet_irc.Files.Messages.{FileChunk, cancelled}
use ricochet_irc.Files.Transfers.{
  Transfers, Outgoing, Incoming, Disk, holding, file_max_chunk_size, send, complete,
  emit_non_fatal_error, result_filesystem_error, assert_that,
}
use ricochet_irc.Files.Sending.{
  next_chunk, advance, chunk_packet, send_next_chunk, send_chunk_of, max_streamsize,
  file_size_modulus,
}
use ricochet_irc.Files.Receiving.{
  handle_file_chunk, write_chunk, write_stream, accept_chunk, acknowledged, finish_file, save,
}

-- Everything that the sender has sent has been received: what it has not read yet is what the
-- partial file lacks, and bytes are left.
pub record InStep (id : ℕ) (contents : Bytes) (s r : Transfers) : Type 0 where
  pub otr : Outgoing
  pub itr : Incoming
  pub written : Bytes
  pub sends : s.direction ≡ outbound
  pub receives : r.direction ≡ inbound
  pub sender : find id s.outgoing_transfers ≡ some otr
  pub receiver : find id r.incoming_transfers ≡ some itr
  pub stream : itr.stream ≡ holding written
  pub split : contents ≡ written ++ otr.rest
  pub offset : otr.offset ≡ length written
  pub size : otr.size ≡ length contents
  pub announced : itr.size ≡ length contents
  pub more : otr.offset < otr.size

abbrev pub chunk_of : ℕ → Bytes → FileChunk
chunk_of id chunk = record { file_id = some id; chunk_data = some chunk }

next_chunk-small : (otr : Outgoing) → length (next_chunk otr) ≤ file_max_chunk_size
next_chunk-small otr = omega (arith, length-take file_max_chunk_size otr.rest)

below_max : (n : ℕ) → n ≤ file_max_chunk_size → (n == max_streamsize) ≡ false
below_max n h = ground arith

not_over : (n : ℕ) → n ≤ file_max_chunk_size → ltb file_max_chunk_size n ≡ false
not_over n h = ground arith

pub eq_false : (m n : ℕ) → m < n → (m == n) ≡ false
eq_false m n h = ground arith

send_chunk_of-small :
    (id : ℕ) (otr : Outgoing) (s : Transfers)
    → otr.offset < otr.size
    → send_chunk_of id otr s
      ≡ send
          (chunk_packet id (next_chunk otr))
          (record s { outgoing_transfers = put id (advance otr) s.outgoing_transfers })
unfolding send_chunk_of
send_chunk_of-small id otr s more =
    rw
      (
        eq_false otr.offset otr.size more,
        below_max (length (next_chunk otr)) (next_chunk-small otr),
        send_chunk_of,
      )
      refl

pub assert_that-true : (b : Bool) (t : Transfers) → b ≡ true → assert_that b t ≡ t
assert_that-true b t e = rw e refl

pub sent_chunk :
    (id : ℕ) (s : Transfers) (otr : Outgoing)
    → s.direction ≡ outbound
    → find id s.outgoing_transfers ≡ some otr
    → otr.offset < otr.size
    → send_next_chunk id s
      ≡ send
          (chunk_packet id (next_chunk otr))
          (record s { outgoing_transfers = put id (advance otr) s.outgoing_transfers })
unfolding send_next_chunk
sent_chunk id s otr d e more =
    rw (e, send_next_chunk)
      (ap (send_chunk_of id otr) (assert_that-true (not (is_inbound s.direction)) s (rw d refl))
        ∙ send_chunk_of-small id otr s more)

write_stream-holding :
    (disk : Disk) (written chunk : Bytes)
    → disk.writes written chunk ≡ true
    → write_stream disk chunk (holding written) ≡ some (written ++ chunk)
unfolding write_stream
write_stream-holding disk written chunk ok = simp ok

module _ (hash : Bytes → Bytes) (disk : Disk) (id : ℕ) (r : Transfers) (itr : Incoming) where
  write_chunk-some :
      (written chunk : Bytes)
      → write_stream disk chunk itr.stream ≡ some written
      → write_chunk hash disk id chunk itr r ≡ accept_chunk hash disk id written itr r
  unfolding write_chunk
  write_chunk-some written chunk e =
      ap
        (λ o. elim o as (λ _. Transfers) [
          | none ↦ send (complete id cancelled) (emit_non_fatal_error id result_filesystem_error r)
          | some w ↦ accept_chunk hash disk id w itr r
        ])
        e

  write_chunk-holding :
      (written chunk : Bytes)
      → itr.stream ≡ holding written
      → disk.writes written chunk ≡ true
      → write_chunk hash disk id chunk itr r ≡ accept_chunk hash disk id (written ++ chunk) itr r
  write_chunk-holding written chunk st ok =
      write_chunk-some (written ++ chunk) chunk
        (ap (write_stream disk chunk) st ∙ write_stream-holding disk written chunk ok)

  received_chunk :
      (chunk : Bytes)
      → r.direction ≡ inbound
      → find id r.incoming_transfers ≡ some itr
      → length chunk ≤ file_max_chunk_size
      → handle_file_chunk hash disk (chunk_of id chunk) r ≡ write_chunk hash disk id chunk itr r
  unfolding handle_file_chunk
  received_chunk chunk d e small = simp (d, e, not_over (length chunk) small)

  accept_chunk-partial :
      (written : Bytes)
      → (length written == itr.size) ≡ false
      → accept_chunk hash disk id written itr r ≡ acknowledged id written itr r
  unfolding accept_chunk
  accept_chunk-partial written e = simp e

  accept_chunk-last :
      (written : Bytes)
      → (length written == itr.size) ≡ true
      → accept_chunk hash disk id written itr r
        ≡ finish_file hash disk id written itr (acknowledged id written itr r)
  unfolding accept_chunk
  accept_chunk-last written e = simp e

pub find-put_same : {A : Type 0} (k : ℕ) (v : A) (m : Dict A) → find k (put k v m) ≡ some v
find-put_same k v m = rw (find-put k k v m) (rw (==_refl k) refl)

length_zero : (l : Bytes) → length l ≡ 0 → l ≡ []
length_zero [] e = refl
length_zero (x ∷ l) e = absurd (omega arith)

saved-finish_file :
    (hash : Bytes → Bytes) (disk : Disk) (id : ℕ) (w : Bytes) (itr : Incoming) (r : Transfers)
    → (finish_file hash disk id w itr r).saved ≡ save hash disk w itr r.saved
unfolding finish_file
saved-finish_file hash disk id w itr r = refl

module _ {id : ℕ} {contents : Bytes} {s r : Transfers} (k : InStep id contents s r) where
  open k use {otr, itr, written}

  -- What the partial file holds once the next chunk is in it.
  abbrev pub grown : Bytes
  grown = written ++ next_chunk otr

  pub grown-split : contents ≡ grown ++ (advance otr).rest
  grown-split =
      k.split
      ∙ ap (λ l. written ++ l) (sym (take-append-drop file_max_chunk_size otr.rest))
      ∙ sym (append_assoc written (next_chunk otr) (advance otr).rest)

  pub grown-length : length contents ≡ length grown + length (advance otr).rest
  grown-length = ap length grown-split ∙ length-append grown (advance otr).rest

  pub grown-offset : length contents < file_size_modulus → (advance otr).offset ≡ length grown
  grown-offset fits = omega (arith, k.offset, grown-length, length-append written (next_chunk otr))

  module _ (hash : Bytes → Bytes) (disk : Disk) (ok : (w c : Bytes) → disk.writes w c ≡ true) where
    round_received :
        handle_file_chunk hash disk (chunk_of id (next_chunk otr)) r
        ≡ accept_chunk hash disk id grown itr r
    round_received =
        received_chunk hash disk id r itr (next_chunk otr) k.receives k.receiver
          (next_chunk-small otr)
        ∙ write_chunk-holding hash disk id r itr written (next_chunk otr) k.stream
            (ok written (next_chunk otr))

    pub round_partial :
        length grown < length contents
        → handle_file_chunk hash disk (chunk_of id (next_chunk otr)) r ≡ acknowledged id grown itr r
    round_partial more =
        round_received
        ∙ accept_chunk-partial hash disk id r itr grown
            (eq_false (length grown) itr.size (omega (arith, k.announced)))

    pub round_last :
        length grown ≡ length contents
        → handle_file_chunk hash disk (chunk_of id (next_chunk otr)) r
          ≡ finish_file hash disk id grown itr (acknowledged id grown itr r)
    round_last whole =
        round_received
        ∙ accept_chunk-last hash disk id r itr grown (ground (arith, k.announced, ==_refl itr.size))

  pub grown-contents : length grown ≡ length contents → grown ≡ contents
  grown-contents whole =
      sym (append-nil grown)
      ∙ ap (λ l. grown ++ l) (sym (length_zero (advance otr).rest (omega (arith, grown-length))))
      ∙ sym grown-split

  abbrev pub sent_state : Transfers
  sent_state =
      send (chunk_packet id (next_chunk otr))
        (record s { outgoing_transfers = put id (advance otr) s.outgoing_transfers })

  pub grown-InStep :
      length contents < file_size_modulus
      → length grown < length contents
      → InStep id contents sent_state (acknowledged id grown itr r)
  grown-InStep fits left = record {
    otr = advance otr;
    itr = record itr { stream = holding grown };
    written = grown;
    sends = k.sends;
    receives = k.receives;
    sender = find-put_same id (advance otr) s.outgoing_transfers;
    receiver = find-put_same id (record itr { stream = holding grown }) r.incoming_transfers;
    stream = refl;
    split = grown-split;
    offset = grown-offset fits;
    size = k.size;
    announced = k.announced;
    more = omega (arith, grown-offset fits, k.size, left);
  }

module _ {id : ℕ} {contents : Bytes} {s r : Transfers} (k : InStep id contents s r) where
  open k use {otr, itr, written}

  module _ (hash : Bytes → Bytes) (disk : Disk) (ok : (w c : Bytes) → disk.writes w c ≡ true) where
    -- A sender and a receiver that are in step in a file of less than 2 ^ 64 bytes of which some
    -- are left to send, on a disk that takes what is written: the chunk that the sender sends next goes to the end of the partial file. If bytes are left then, the two are in
    -- step again behind it; otherwise the receiver finishes with the contents of the sender's file.
    pub round_steps :
        length contents < file_size_modulus
        → let chunk = next_chunk otr in
          let s' = send_next_chunk id s in
          let r' = handle_file_chunk hash disk (chunk_of id chunk) r in
          (s'.sent ≡ s.sent ++ chunk_packet id chunk ∷ [])
          × (length (written ++ chunk) < length contents → InStep id contents s' r')
          × (length (written ++ chunk) ≡ length contents
              → (r'.saved ≡ save hash disk contents itr r.saved))
    round_steps fits = (
      ap (λ t. t.sent) (sent_chunk id s otr k.sends k.sender k.more),
      λ more.
          rw (sent_chunk id s otr k.sends k.sender k.more, round_partial k hash disk ok more)
            (grown-InStep k fits more),
      λ whole.
          ap (λ t. t.saved) (round_last k hash disk ok whole)
          ∙ saved-finish_file hash disk id (grown k) itr (acknowledged id (grown k) itr r)
          ∙ ap (λ w. save hash disk w itr r.saved) (grown-contents k whole),
    )
