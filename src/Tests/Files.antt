-- ===== src/Tests/Files.antt =====
-- File transfers at concrete inputs (src/libtego/source/protocol/FileChannel.cpp).
use ricochet_irc.Prelude.{arith, length, ◌<◌, ◌≡◌, refl, true, false, List, [], ◌∷◌, some}
use ricochet_irc.Wire.Frame.{Bytes}
use ricochet_irc.Connection.State.{inbound, outbound}
use ricochet_irc.Files.Messages.{FilePacket, FileHeader, no_message, verify_packet}
use ricochet_irc.Files.Transfers.{Incoming, holding, Transfers, Disk}
use ricochet_irc.Files.Sending.{chunk_packet, send_next_chunk, send_file_with_id}
use ricochet_irc.Files.Receiving
use ricochet_irc.Files.Receiving.{handle_file_chunk, save, is_refused, handle_file_header}
use ricochet_irc.Files.Channel
use ricochet_irc.Files.Channel.{Call, receives, accepts, new_transfers, run, step, receive_packet}
use ricochet_irc.Files.Rounds.{InStep, chunk_of, round_steps}
use ricochet_irc.Files.Refusal.{refused_header_fatal}
use ricochet_irc.Files.Exchange.{exchange, accepted_offer}
use ricochet_irc.Files.Exchange.Arrival.{Arrived}
use ricochet_irc.Files.Exchange.Offer.{offer_of, accepted_files-Arrived}

abbrev some_disk : Disk
some_disk = record { opens = λ _. true; writes = λ _ _. true; renames = λ _. true }

-- A digest of 64 bytes that shows the contents.
abbrev digest : Bytes → Bytes
digest b =
    let eight = λ (rest : Bytes). 1 ∷ 1 ∷ 1 ∷ 1 ∷ 1 ∷ 1 ∷ 1 ∷ 1 ∷ rest in
    eight (eight (eight (eight (eight (eight (eight (1 ∷ 1 ∷ 1 ∷ 1 ∷ 1 ∷ 1 ∷ b)))))))

abbrev header : Bytes → FileHeader
header name = record {
  file_id = some 7;
  file_size = some 2;
  name = some name;
  file_hash = some (digest (5 ∷ 6 ∷ []));
}

abbrev download : List (Disk × Call)
download =
    (some_disk, receives (some (record no_message { file_header = some (header (b'a' ∷ [])) })))
    ∷ (some_disk, accepts 7 (b'd' ∷ []))
    ∷ (some_disk, receives (some (chunk_packet 7 (5 ∷ []))))
    ∷ (some_disk, receives (some (chunk_packet 7 (6 ∷ []))))
    ∷ []

-- Two chunks make the file that was announced.
download_saves :
    (run digest download (new_transfers inbound)).saved
    ≡ (record { dest = b'd' ∷ []; contents = 5 ∷ 6 ∷ []; size = 2; hash = digest (5 ∷ 6 ∷ []) })
      ∷ []
unfolding run step receive_packet verify_packet Channel.dispatch Receiving.handle_file_chunk
    Receiving.accept_file handle_file_header is_refused Receiving.has_dots Receiving.has_byte
    Receiving.accept_record Receiving.open_stream Receiving.write_chunk Receiving.write_stream
    Receiving.accept_chunk Receiving.finish_file Receiving.save
download_saves = refl

abbrev offering : Transfers
offering =
    (send_file_with_id (some (5 ∷ 6 ∷ [])) (b'/' ∷ []) (digest (5 ∷ 6 ∷ [])) 7
      (new_transfers outbound)).0

header_refused : is_refused (header (b'/' ∷ [])) ≡ true
unfolding is_refused Receiving.has_dots Receiving.has_byte
header_refused = refl

offering_outbound : offering.direction ≡ outbound
unfolding send_file_with_id
offering_outbound = refl

refused_header_fatal_example :
    (p : FilePacket) × ((handle_file_header (header (b'/' ∷ [])) (new_transfers inbound)).sent
      ≡ p ∷ [])
    × ((receive_packet digest some_disk (some p) offering).outgoing_transfers ≡ [])
    × ((receive_packet digest some_disk (some p) offering).is_closing ≡ true)
refused_header_fatal_example =
    refused_header_fatal digest some_disk (header (b'/' ∷ [])) (new_transfers inbound) offering
      header_refused offering_outbound

abbrev two_bytes : Bytes
two_bytes = 5 ∷ 6 ∷ []

-- An accepted transfer, before its first chunk.
abbrev uploading : Transfers
uploading = record (new_transfers outbound) {
  outgoing_transfers = (7, record { size = 2; offset = 0; rest = two_bytes }) ∷ [];
}

abbrev downloading : Incoming
downloading = record { size = 2; hash = digest two_bytes; dest = b'd' ∷ []; stream = holding [] }

abbrev expecting : Transfers
expecting = record (new_transfers inbound) { incoming_transfers = (7, downloading) ∷ [] }

in_step : InStep 7 two_bytes uploading expecting
in_step = record {
  otr = record { size = 2; offset = 0; rest = two_bytes };
  itr = downloading;
  written = [];
  sends = refl;
  receives = refl;
  sender = refl;
  receiver = refl;
  stream = refl;
  split = refl;
  offset = refl;
  size = refl;
  announced = refl;
  more = omega arith;
}

round_steps_example :
    ((send_next_chunk 7 uploading).sent ≡ chunk_packet 7 two_bytes ∷ [])
    × (length two_bytes < length two_bytes
        → InStep 7 two_bytes
            (send_next_chunk 7 uploading)
            (handle_file_chunk digest some_disk (chunk_of 7 two_bytes) expecting))
    × (length two_bytes ≡ length two_bytes
        → (handle_file_chunk digest some_disk (chunk_of 7 two_bytes) expecting).saved
          ≡ save digest some_disk two_bytes downloading [])
unfolding in_step
round_steps_example = round_steps in_step digest some_disk (λ w c. refl) (omega arith)

offer_allowed : is_refused (offer_of digest some_disk 7 (b'a' ∷ []) (b'd' ∷ []) two_bytes) ≡ false
unfolding is_refused Receiving.has_dots Receiving.has_byte
offer_allowed = refl

accepted_files-Arrived_example :
    Arrived 7
      (record { dest = b'd' ∷ []; contents = two_bytes; size = 2; hash = digest two_bytes })
      []
      (false, false)
      (exchange digest some_disk 3 (
        accepted_offer digest some_disk two_bytes
          (b'a' ∷ [])
          (b'd' ∷ [])
          7
          (new_transfers outbound)
          (new_transfers inbound)))
accepted_files-Arrived_example =
    accepted_files-Arrived digest some_disk 7 (b'a' ∷ []) (b'd' ∷ []) two_bytes
      (new_transfers outbound) (new_transfers inbound) 2 refl refl refl refl offer_allowed refl
      (λ w c. refl) refl (omega arith) (omega arith) (omega arith)
