-- ===== src/Files/Exchange/Arrival.antt =====
-- A file that is accepted arrives (src/libtego/source/protocol/FileChannel.cpp).
use ricochet_irc.Prelude.{
  ℕ, zero, suc, ◌≤◌, ◌<◌, ◌≡◌, refl, ap, sym, ◌∙◌, Bool, true, false, List, [], ◌∷◌, none, find,
  Dict, remove, ltb, ltb→lt, length, drop, inl, inr, same_refl, arith, Bool-cases, find-remove,
  ==_refl, length-drop,
}
use ricochet_irc.Wire.Frame.{Bytes}
use ricochet_irc.Files.Transfers.{
  Incoming, Transfers, SavedFile, Disk, FileSignal, holding, sending, receiving,
  file_transfer_finished, result_success, file_max_chunk_size,
}
use ricochet_irc.Files.Sending.{
  next_chunk, advance, chunk_packet, send_next_chunk, file_size_modulus,
}
use ricochet_irc.Files.Receiving.{acknowledged, finish_file, save, outcome}
use ricochet_irc.Files.Rounds.{
  grown, grown-split, grown-length, grown-offset, grown-contents, find-put_same, sent_chunk,
}
use ricochet_irc.Files.Exchange.{Link, exchange}
use ricochet_irc.Files.Exchange.Turns.{
  Flying, exchange-quiet, sender_noted, sender_done, receiver_done, turn-partial, turn-last,
  sender_outbound, sender_finds,
}

-- Whether an assertion has failed, on either side.
abbrev pub failures : Link → Bool × Bool
failures l = (l.sender.has_failed_assertion, l.receiver.has_failed_assertion)

-- The file is saved, nothing of the transfer is left, and no assertion has failed since.
pub record Arrived (id : ℕ) (file : SavedFile) (saved : List SavedFile) (failed : Bool × Bool)
    (l : Link) : Type 0 where
  pub delivered : l.mail ≡ []
  pub asserted : failures l ≡ failed
  pub saves : l.receiver.saved ≡ file ∷ saved
  pub received : find id l.receiver.incoming_transfers ≡ none
  pub sent : find id l.sender.outgoing_transfers ≡ none
  pub receiver_told :
      (rest : List FileSignal) × (l.receiver.signals
        ≡ file_transfer_finished id receiving result_success ∷ rest)
  pub sender_told :
      (rest : List FileSignal) × (l.sender.signals
        ≡ file_transfer_finished id sending result_success ∷ rest)

pub same_failures :
    {id : ℕ} {file : SavedFile} {saved : List SavedFile} {x y : Bool × Bool} {l : Link}
    → x ≡ y
    → Arrived id file saved x l
    → Arrived id file saved y l
same_failures e a = rw (sym e) a

find-remove_same : {A : Type 0} (k : ℕ) (m : Dict A) → find k (remove k m) ≡ none
find-remove_same k m = rw (find-remove k k m) (rw (==_refl k) refl)

none_left : (n : ℕ) → ltb 0 n ≡ false → n ≡ 0
none_left n e = ground arith

module _ (hash : Bytes → Bytes) (disk : Disk) (ok : (w c : Bytes) → disk.writes w c ≡ true) where
  save-right :
      (w : Bytes) (itr : Incoming) (saved : List SavedFile)
      → itr.hash ≡ hash w
      → disk.renames itr.dest ≡ true
      → save hash disk w itr saved
        ≡ record { dest = itr.dest; contents = w; size = itr.size; hash = itr.hash } ∷ saved
  unfolding save
  save-right w itr saved e moved = simp (e, same_refl (hash w), moved)

  outcome-right :
      (w : Bytes) (itr : Incoming)
      → itr.hash ≡ hash w
      → disk.renames itr.dest ≡ true
      → outcome hash disk w itr ≡ result_success
  unfolding outcome
  outcome-right w itr e moved = simp (e, same_refl (hash w), moved)

  module _ (id : ℕ) (contents : Bytes) (fits : length contents < file_size_modulus) where
    module _ (l : Link) (f : Flying id contents l) where
      open f.steps use {otr, itr}

      -- The link behind a turn that is not the last.
      abbrev next_link : Link
      next_link = record {
        mail = chunk_packet id (next_chunk (advance otr)) ∷ [];
        sender = send_next_chunk id (sender_noted f hash disk ok fits);
        receiver = acknowledged id (grown f.steps) itr l.receiver;
      }

      abbrev next_flying : length (grown f.steps) < length contents → Flying id contents next_link
      next_flying left = record {
        before = sender_noted f hash disk ok fits;
        steps = record {
          otr = advance otr;
          itr = record itr { stream = holding (grown f.steps) };
          written = grown f.steps;
          sends = sender_outbound f hash disk ok fits;
          receives = f.steps.receives;
          sender = sender_finds f hash disk ok fits;
          receiver = find-put_same id _ l.receiver.incoming_transfers;
          stream = refl;
          split = grown-split f.steps;
          offset = grown-offset f.steps fits;
          size = f.steps.size;
          announced = f.steps.announced;
          more = omega (arith, grown-offset f.steps fits, f.steps.size, left);
        };
        sends = refl;
        mail = refl;
      }

      abbrev last_link : Link
      last_link = record {
        mail = [];
        sender = sender_done f hash disk ok fits;
        receiver = receiver_done f hash disk ok fits;
      }

      last_arrives :
          itr.hash ≡ hash contents
          → disk.renames itr.dest ≡ true
          → length (grown f.steps) ≡ length contents
          → Arrived id
              (record {
                dest = itr.dest;
                contents = contents;
                size = length contents;
                hash = hash contents;
              })
              l.receiver.saved
              (failures l)
              last_link
      unfolding finish_file
      last_arrives e moved whole = record {
        delivered = refl;
        asserted = refl;
        saves =
            ap (λ w. save hash disk w itr l.receiver.saved) (grown-contents f.steps whole)
            ∙ save-right contents itr l.receiver.saved e moved
            ∙ ap
                (λ h.
                  record { dest = itr.dest; contents = contents; size = itr.size; hash = h }
                  ∷ l.receiver.saved)
                e
            ∙ ap
                (λ n.
                  record { dest = itr.dest; contents = contents; size = n; hash = hash contents }
                  ∷ l.receiver.saved)
                f.steps.announced;
        received = find-remove_same id _;
        sent = find-remove_same id _;
        receiver_told = (
          _,
          ap
              (λ r.
                file_transfer_finished id receiving r
                ∷ (acknowledged id (grown f.steps) itr l.receiver).signals)
              (outcome-right (grown f.steps) itr (e ∙ ap hash (sym (grown-contents f.steps whole)))
                moved),
        );
        sender_told = (_, refl);
      }

      -- The next chunk of a file that is not finished fails no assertion.
      next-failures : length (grown f.steps) < length contents → failures next_link ≡ failures l
      next-failures left =
          ap (λ (t : Transfers). (t.has_failed_assertion, l.receiver.has_failed_assertion))
            (sent_chunk id (sender_noted f hash disk ok fits) (advance otr)
              (sender_outbound f hash disk ok fits) (sender_finds f hash disk ok fits)
              (next_flying left).steps.more)

    shorter :
        (rest : Bytes) (n : ℕ) → length rest ≤ suc n → length (drop file_max_chunk_size rest) ≤ n
    shorter rest n h = omega (arith, length-drop file_max_chunk_size rest)

    abbrev file_of : Incoming → SavedFile
    file_of itr = record {
      dest = itr.dest;
      contents = contents;
      size = length contents;
      hash = hash contents;
    }

    arrives_now :
        (n : ℕ) (l : Link) (f : Flying id contents l)
        → f.steps.itr.hash ≡ hash contents
        → disk.renames f.steps.itr.dest ≡ true
        → length (advance f.steps.otr).rest ≡ 0
        → Arrived id
            (file_of f.steps.itr)
            l.receiver.saved
            (failures l)
            (exchange hash disk (suc n) l)
    unfolding exchange
    arrives_now n l f e moved h =
        let whole : length (grown f.steps) ≡ length contents =
          omega (arith, grown-length f.steps) in
        rw (turn-last f hash disk ok fits whole, exchange-quiet hash disk n (last_link l f) refl)
          (last_arrives l f e moved whole)

    -- As many turns as bytes are left behind the chunk on its way, and one more, are enough.
    pub arrives :
        (n : ℕ) (l : Link) (f : Flying id contents l)
        → f.steps.itr.hash ≡ hash contents
        → disk.renames f.steps.itr.dest ≡ true
        → length (advance f.steps.otr).rest ≤ n
        → Arrived id
            (file_of f.steps.itr)
            l.receiver.saved
            (failures l)
            (exchange hash disk (suc n) l)
    unfolding exchange
    arrives zero l f e moved h = arrives_now zero l f e moved (omega arith)
    arrives (suc n) l f e moved h = elim (Bool-cases (ltb 0 (length (advance f.steps.otr).rest))) [
      | inl more ↦
          let left : length (grown f.steps) < length contents =
            omega
              (arith, ltb→lt 0 (length (advance f.steps.otr).rest) more, grown-length f.steps) in
          rw (turn-partial f hash disk ok fits left) (
            same_failures (next-failures l f left) (
              arrives n (next_link l f) (next_flying l f left) e moved
                (shorter (advance f.steps.otr).rest n h)))
      | inr no_more ↦
          arrives_now (suc n) l f e moved (none_left (length (advance f.steps.otr).rest) no_more)
    ]
