-- ===== src/Files/Exchange/Offer.antt =====
-- From the offer of a file to its arrival (src/libtego/source/protocol/FileChannel.cpp).
use ricochet_irc.Prelude.{
  ℕ, suc, ◌≤◌, ◌<◌, ◌≡◌, refl, ap, ◌∙◌, Bool, true, false, [], ◌∷◌, none, some, find, Dict, put,
  put_new, length, lt→ltb, arith, pos, append_assoc, length-drop,
}
use ricochet_irc.Wire.Frame.{Bytes}
use ricochet_irc.Connection.State.{inbound, outbound}
use ricochet_irc.Files.Messages.{FilePacket, FileHeader, no_message, verify_packet}
use ricochet_irc.Files.Transfers.{
  Transfers, Outgoing, Incoming, Disk, send, emit, not_open, holding, receiving,
  file_max_chunk_size, file_transfer_acknowledged, file_transfer_request_responded,
  file_transfer_request_received, file_transfer_progress,
}
use ricochet_irc.Files.Sending.{
  next_chunk, chunk_packet, send_next_chunk, send_file_with_id, handle_file_header_ack,
  handle_file_header_response, respond, file_size_modulus,
}
use ricochet_irc.Files.Receiving.{
  handle_file_header, is_refused, header_ack, response_packet, accept_file, accept_record,
  open_stream,
}
use ricochet_irc.Files.Channel.{receive_packet, dispatch}
use ricochet_irc.Files.Rounds.{sent_chunk, find-put_same}
use ricochet_irc.Files.Exchange.{Link, news, receive_all, exchange, accepted_offer}
use ricochet_irc.Files.Exchange.Turns.{Flying, news-send}
use ricochet_irc.Files.Exchange.Arrival.{Arrived, failures, same_failures, arrives}

find-put_new :
    {A : Type 0} (k : ℕ) (v : A) (m : Dict A) → find k m ≡ none → find k (put_new k v m) ≡ some v
find-put_new k v m e = rw e (find-put_same k v m)

accept_file-some :
    (disk : Disk) (id : ℕ) (dest : Bytes) (t : Transfers) (itr : Incoming)
    → find id t.incoming_transfers ≡ some itr
    → accept_file disk id dest t ≡ accept_record disk id dest itr t
unfolding accept_file
accept_file-some disk id dest t itr e =
    ap
      (λ o. elim o as (λ _. Transfers × Bool) [
        | none ↦ (t, false)
        | some i ↦ accept_record disk id dest i t
      ])
      e

accept_record-opens :
    (disk : Disk) (id : ℕ) (dest : Bytes) (itr : Incoming) (t : Transfers)
    → itr.stream ≡ not_open
    → disk.opens dest ≡ true
    → (accept_record disk id dest itr t).0
      ≡ emit (file_transfer_progress id receiving 0 itr.size) (
          send (response_packet id 0) (record t {
            incoming_transfers =
                put id (record itr { dest = dest; stream = holding [] }) t.incoming_transfers;
          }))
unfolding accept_record open_stream
accept_record-opens disk id dest itr t e opens = simp (e, opens)

module _ (hash : Bytes → Bytes) (disk : Disk) (id : ℕ) (name dest contents : Bytes) where
  abbrev pub offer_of : FileHeader
  offer_of = record {
    file_id = some id;
    file_size = some (length contents);
    name = some name;
    file_hash = some (hash contents);
  }

  abbrev header_packet : FilePacket
  header_packet = record no_message { file_header = some offer_of }

  abbrev new_outgoing : Outgoing
  new_outgoing = record { size = length contents; offset = 0; rest = contents }

  abbrev new_incoming : Incoming
  new_incoming = record {
    size = length contents;
    hash = hash contents;
    dest = [];
    stream = not_open;
  }

  abbrev open_incoming : Incoming
  open_incoming = record new_incoming { dest = dest; stream = holding [] }

  module _ (s r : Transfers) where
    abbrev offered : Transfers
    offered =
        send header_packet
          (record s { outgoing_transfers = put_new id new_outgoing s.outgoing_transfers })

    abbrev asked : Transfers
    asked = send (header_ack (some id) true) (
        emit (file_transfer_request_received id name (length contents) (hash contents))
          (record r { incoming_transfers = put_new id new_incoming r.incoming_transfers }))

    abbrev accepted : Transfers
    accepted = emit (file_transfer_progress id receiving 0 (length contents)) (
        send (response_packet id 0)
          (record asked { incoming_transfers = put id open_incoming asked.incoming_transfers }))

    -- The sender behind both answers, before its first chunk.
    abbrev answered : Transfers
    answered =
        emit (file_transfer_request_responded id (pos 0))
          (emit (file_transfer_acknowledged id true) offered)

    offered-send :
        s.direction ≡ outbound
        → find id s.outgoing_transfers ≡ none
        → 0 < length contents
        → (send_file_with_id (some contents) name (hash contents) id s).0 ≡ offered
    unfolding send_file_with_id
    offered-send d e some_bytes = simp (d, e, lt→ltb 0 (length contents) some_bytes)

    news-offered : news s offered ≡ header_packet ∷ []
    news-offered = news-send s (header_packet ∷ []) offered refl

    asked-receive :
        r.direction ≡ inbound
        → is_refused offer_of ≡ false
        → receive_all hash disk (header_packet ∷ []) r ≡ asked
    unfolding receive_all receive_packet dispatch verify_packet handle_file_header
    asked-receive d e = simp (d, e)

    accepted-accept :
        find id r.incoming_transfers ≡ none
        → disk.opens dest ≡ true
        → (accept_file disk id dest asked).0 ≡ accepted
    accepted-accept e opens =
        ap (λ x. x.0)
          (accept_file-some disk id dest asked new_incoming
            (find-put_new id new_incoming r.incoming_transfers e))
        ∙ accept_record-opens disk id dest new_incoming asked refl opens

    news-accepted : news r accepted ≡ header_ack (some id) true ∷ response_packet id 0 ∷ []
    news-accepted =
        news-send r (header_ack (some id) true ∷ response_packet id 0 ∷ []) accepted
          (append_assoc r.sent _ _)

    answered-receive :
        s.direction ≡ outbound
        → find id s.outgoing_transfers ≡ none
        → receive_all hash disk (header_ack (some id) true ∷ response_packet id 0 ∷ []) offered
          ≡ send_next_chunk id answered
    unfolding receive_all receive_packet dispatch verify_packet handle_file_header_ack
        handle_file_header_response respond
    answered-receive d e = simp (d, find-put_new id new_outgoing s.outgoing_transfers e)

    module _ (sends : s.direction ≡ outbound) (receives : r.direction ≡ inbound)
        (fresh : find id s.outgoing_transfers ≡ none)
        (unknown : find id r.incoming_transfers ≡ none) (allowed : is_refused offer_of ≡ false)
        (opens : disk.opens dest ≡ true) (some_bytes : 0 < length contents) where
      abbrev started : Link
      started = record {
        mail = chunk_packet id (next_chunk new_outgoing) ∷ [];
        sender = send_next_chunk id answered;
        receiver = accepted;
      }

      answered-finds : find id answered.outgoing_transfers ≡ some new_outgoing
      answered-finds = find-put_new id new_outgoing s.outgoing_transfers fresh

      news-started : news offered (send_next_chunk id answered) ≡ started.mail
      news-started =
          news-send offered started.mail (send_next_chunk id answered)
            (ap (λ t. t.sent) (sent_chunk id answered new_outgoing sends answered-finds some_bytes))

      started-failures : failures started ≡ (s.has_failed_assertion, r.has_failed_assertion)
      started-failures =
          ap (λ (t : Transfers). (t.has_failed_assertion, r.has_failed_assertion))
            (sent_chunk id answered new_outgoing sends answered-finds some_bytes)

      started-accepted_offer : accepted_offer hash disk contents name dest id s r ≡ started
      unfolding accepted_offer
      started-accepted_offer =
          rw
            (
              offered-send sends fresh some_bytes,
              news-offered,
              asked-receive receives allowed,
              accepted-accept unknown opens,
              news-accepted,
              answered-receive sends fresh,
              news-started,
            )
            refl

      abbrev started_flying : Flying id contents started
      started_flying = record {
        before = answered;
        steps = record {
          otr = new_outgoing;
          itr = open_incoming;
          written = [];
          sends = sends;
          receives = receives;
          sender = answered-finds;
          receiver = find-put_same id open_incoming asked.incoming_transfers;
          stream = refl;
          split = refl;
          offset = refl;
          size = refl;
          announced = refl;
          more = some_bytes;
        };
        sends = refl;
        mail = refl;
      }

-- A file whose name and hash are acceptable, offered on an outbound channel and accepted by the user
-- of the inbound channel of the peer, both with no transfer of that identifier, on a disk that
-- answers every call: if the file has bytes, less than 2 ^ 64 of them, the two channels exchange
-- packets until it is saved under the name that the user chose, with its contents, size and hash;
-- both sides are told of the success, neither keeps the transfer, and no assertion fails on either. As
-- many turns as the file has bytes, and one more, are enough.
pub accepted_files-Arrived :
    (hash : Bytes → Bytes) (disk : Disk) (id : ℕ) (name dest contents : Bytes) (s r : Transfers)
    (n : ℕ)
    → s.direction ≡ outbound
    → r.direction ≡ inbound
    → find id s.outgoing_transfers ≡ none
    → find id r.incoming_transfers ≡ none
    → is_refused (offer_of hash disk id name dest contents) ≡ false
    → disk.opens dest ≡ true
    → ((w c : Bytes) → disk.writes w c ≡ true)
    → disk.renames dest ≡ true
    → 0 < length contents
    → length contents < file_size_modulus
    → length contents ≤ n
    → Arrived id
        (record { dest = dest; contents = contents; size = length contents; hash = hash contents })
        r.saved
        (s.has_failed_assertion, r.has_failed_assertion)
        (exchange hash disk (suc n) (accepted_offer hash disk contents name dest id s r))
accepted_files-Arrived hash disk id name dest contents s r n sends receives fresh unknown allowed
      opens writes renames some_bytes fits enough =
    rw
      (started-accepted_offer hash disk id name dest contents s r sends receives fresh unknown
        allowed opens some_bytes)
      (same_failures
        (started-failures hash disk id name dest contents s r sends receives fresh unknown allowed
          opens some_bytes)
        (arrives hash disk writes id contents fits n
          (started hash disk id name dest contents s r sends receives fresh unknown allowed opens
            some_bytes)
          (started_flying hash disk id name dest contents s r sends receives fresh unknown allowed
            opens some_bytes)
          refl renames (omega (arith, enough, length-drop file_max_chunk_size contents))))
