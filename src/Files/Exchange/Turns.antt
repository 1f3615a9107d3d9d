-- ===== src/Files/Exchange/Turns.antt =====
-- One turn of an exchange of file packets, and the turns behind the last
-- (src/libtego/source/protocol/FileChannel.cpp).
use ricochet_irc.Prelude.{
  ℕ, zero, suc, ◌<◌, ◌≡◌, refl, ap, sym, ◌∙◌, true, false, List, [], ◌∷◌, ◌++◌, some, find, remove,
  ltb, lt→ltb, length, drop, arith, ==_refl, append_assoc, append-nil, drop-append,
}
use ricochet_irc.Wire.Frame.{Bytes}
use ricochet_irc.Connection.State.{outbound}
use ricochet_irc.Files.Messages.{FilePacket, success, verify_packet}
use ricochet_irc.Files.Transfers.{
  Transfers, Outgoing, Disk, emit, complete, receiving, sending, file_transfer_progress,
  file_transfer_finished, result_success,
}
use ricochet_irc.Files.Sending.{
  next_chunk, advance, chunk_packet, send_next_chunk, handle_file_chunk_ack, acknowledge,
  file_size_modulus,
}
use ricochet_irc.Files.Receiving.{handle_file_chunk, acknowledged, finish_file, ack_packet}
use ricochet_irc.Files.Channel.{receive_packet, handle_complete, dispatch}
use ricochet_irc.Files.Rounds.{
  InStep, chunk_of, grown, sent_state, grown-offset, round_partial, round_last, sent_chunk,
  find-put_same,
}
use ricochet_irc.Files.Exchange.{Link, news, receive_all, turn, exchange}

pub news-send :
    (before : Transfers) (ps : List FilePacket) (after : Transfers)
    → after.sent ≡ before.sent ++ ps
    → news before after ≡ ps
news-send before ps after e = ap (drop (length before.sent)) e ∙ drop-append before.sent ps

pub news-none : (before after : Transfers) → after.sent ≡ before.sent → news before after ≡ []
news-none before after e = news-send before [] after (e ∙ sym (append-nil before.sent))

not_less : (n : ℕ) → ltb n n ≡ false
not_less n = ground arith

module _ (hash : Bytes → Bytes) (disk : Disk) where
  receive_chunk :
      (id : ℕ) (c : Bytes) (t : Transfers)
      → receive_packet hash disk (some (chunk_packet id c)) t
        ≡ handle_file_chunk hash disk (chunk_of id c) t
  unfolding receive_packet dispatch verify_packet
  receive_chunk id c t = refl

  receive_ack :
      (id n : ℕ) (t : Transfers)
      → receive_packet hash disk (some (ack_packet id n)) t
        ≡ handle_file_chunk_ack (record { file_id = some id; bytes_received = some n }) t
  unfolding receive_packet dispatch verify_packet
  receive_ack id n t = refl

  receive_complete :
      (id : ℕ) (t : Transfers)
      → receive_packet hash disk (some (complete id success)) t
        ≡ handle_complete (record { file_id = some id; result = some success }) t
  unfolding receive_packet dispatch verify_packet
  receive_complete id t = refl

  pub turned :
      (l : Link) (r s : Transfers) (ps qs : List FilePacket)
      → receive_all hash disk l.mail l.receiver ≡ r
      → news l.receiver r ≡ ps
      → receive_all hash disk ps l.sender ≡ s
      → news l.sender s ≡ qs
      → turn hash disk l ≡ record { mail = qs; sender = s; receiver = r }
  unfolding turn
  turned l r s ps qs a b c d = rw (a, b, c, d) refl

  turn-quiet : (l : Link) → l.mail ≡ [] → turn hash disk l ≡ l
  unfolding receive_all
  turn-quiet l e =
      turned l l.receiver l.sender [] [] (rw e refl) (news-none l.receiver l.receiver refl) refl
        (news-none l.sender l.sender refl)
      ∙ ap (λ (m : List FilePacket). record l { mail = m }) (sym e)

  -- Without mail nothing happens any more.
  pub exchange-quiet : (n : ℕ) (l : Link) → l.mail ≡ [] → exchange hash disk n l ≡ l
  unfolding exchange
  exchange-quiet zero l e = refl
  exchange-quiet (suc n) l e = ap (exchange hash disk n) (turn-quiet l e) ∙ exchange-quiet n l e

  -- What the sender makes of an acknowledgement of all that it has sent.
  receive_ack-last :
      (id : ℕ) (otr : Outgoing) (s : Transfers)
      → s.direction ≡ outbound
      → find id s.outgoing_transfers ≡ some otr
      → otr.offset ≡ otr.size
      → receive_packet hash disk (some (ack_packet id otr.offset)) s
        ≡ emit (file_transfer_progress id receiving otr.offset otr.size) s
  unfolding handle_file_chunk_ack acknowledge
  receive_ack-last id otr s d e whole =
      receive_ack id otr.offset s ∙ simp (d, e, whole, ==_refl otr.size, not_less otr.size)

  receive_ack-next :
      (id : ℕ) (otr : Outgoing) (s : Transfers)
      → s.direction ≡ outbound
      → find id s.outgoing_transfers ≡ some otr
      → otr.offset < otr.size
      → receive_packet hash disk (some (ack_packet id otr.offset)) s
        ≡ send_next_chunk id (emit (file_transfer_progress id receiving otr.offset otr.size) s)
  unfolding handle_file_chunk_ack acknowledge
  receive_ack-next id otr s d e more =
      receive_ack id otr.offset s ∙ simp (d, e, ==_refl otr.offset, lt→ltb otr.offset otr.size more)

  receive_complete-known :
      (id : ℕ) (otr : Outgoing) (s : Transfers)
      → s.direction ≡ outbound
      → find id s.outgoing_transfers ≡ some otr
      → receive_packet hash disk (some (complete id success)) s
        ≡ emit
            (file_transfer_finished id sending result_success)
            (record s { outgoing_transfers = remove id s.outgoing_transfers })
  unfolding handle_complete
  receive_complete-known id otr s d e = receive_complete id s ∙ simp (d, e)

-- The sender has sent the next chunk of a file that both sides work on in step.
pub record Flying (id : ℕ) (contents : Bytes) (l : Link) : Type 0 where
  pub before : Transfers
  pub steps : InStep id contents before l.receiver
  pub sends : l.sender ≡ send_next_chunk id before
  pub mail : l.mail ≡ chunk_packet id (next_chunk steps.otr) ∷ []

module _ {id : ℕ} {contents : Bytes} {l : Link} (f : Flying id contents l) (hash : Bytes → Bytes)
    (disk : Disk) (ok : (w c : Bytes) → disk.writes w c ≡ true)
    (fits : length contents < file_size_modulus) where
  open f.steps use {otr, itr}

  abbrev whole_part : Bytes
  whole_part = grown f.steps

  sender_sent : l.sender ≡ sent_state f.steps
  sender_sent = f.sends ∙ sent_chunk id f.before otr f.steps.sends f.steps.sender f.steps.more

  pub sender_outbound : l.sender.direction ≡ outbound
  sender_outbound = ap (λ t. t.direction) sender_sent ∙ f.steps.sends

  pub sender_finds : find id l.sender.outgoing_transfers ≡ some (advance otr)
  sender_finds =
      ap (λ t. find id t.outgoing_transfers) sender_sent
      ∙ find-put_same id (advance otr) f.before.outgoing_transfers

  received :
      (r : Transfers)
      → handle_file_chunk hash disk (chunk_of id (next_chunk otr)) l.receiver ≡ r
      → receive_all hash disk l.mail l.receiver ≡ r
  unfolding receive_all
  received r e = rw f.mail (receive_chunk hash disk id (next_chunk otr) l.receiver ∙ e)

  acked : ack_packet id (length whole_part) ≡ ack_packet id (advance otr).offset
  acked = ap (ack_packet id) (sym (grown-offset f.steps fits))

  -- The sender behind the acknowledgement.
  abbrev pub sender_noted : Transfers
  sender_noted = emit (file_transfer_progress id receiving (advance otr).offset otr.size) l.sender

  pub turn-partial :
      length whole_part < length contents
      → turn hash disk l ≡ record {
        mail = chunk_packet id (next_chunk (advance otr)) ∷ [];
        sender = send_next_chunk id sender_noted;
        receiver = acknowledged id whole_part itr l.receiver;
      }
  unfolding receive_all
  turn-partial more =
      turned hash disk l _ _ (ack_packet id (length whole_part) ∷ []) _
        (received _ (round_partial f.steps hash disk ok more))
        (news-send l.receiver (ack_packet id (length whole_part) ∷ [])
          (acknowledged id whole_part itr l.receiver) refl)
        (rw acked (
          receive_ack-next hash disk id (advance otr) l.sender sender_outbound sender_finds
            (omega (arith, grown-offset f.steps fits, f.steps.size))))
        (news-send l.sender (chunk_packet id (next_chunk (advance otr)) ∷ [])
          (send_next_chunk id sender_noted)
          (ap (λ t. t.sent)
            (sent_chunk id sender_noted (advance otr) sender_outbound sender_finds
              (omega (arith, grown-offset f.steps fits, f.steps.size)))))

  -- The receiver and the sender behind the last turn.
  abbrev pub receiver_done : Transfers
  receiver_done =
      finish_file hash disk id whole_part itr (acknowledged id whole_part itr l.receiver)

  abbrev pub sender_done : Transfers
  sender_done =
      emit (file_transfer_finished id sending result_success)
        (record sender_noted { outgoing_transfers = remove id l.sender.outgoing_transfers })

  sent-receiver_done :
      receiver_done.sent
      ≡ l.receiver.sent ++ ack_packet id (length whole_part) ∷ complete id success ∷ []
  unfolding finish_file
  sent-receiver_done = append_assoc l.receiver.sent _ _

  pub turn-last :
      length whole_part ≡ length contents
      → turn hash disk l ≡ record { mail = []; sender = sender_done; receiver = receiver_done }
  unfolding receive_all
  turn-last whole =
      turned hash disk l receiver_done sender_done _ []
        (received _ (round_last f.steps hash disk ok whole))
        (news-send l.receiver (ack_packet id (length whole_part) ∷ complete id success ∷ [])
          receiver_done sent-receiver_done)
        (rw
          (
            acked,
            receive_ack-last hash disk id (advance otr) l.sender sender_outbound sender_finds
                (omega (arith, grown-offset f.steps fits, f.steps.size)),
          )
          (receive_complete-known hash disk id (advance otr) sender_noted sender_outbound
            sender_finds))
        (news-none l.sender sender_done refl)
