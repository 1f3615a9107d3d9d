-- ===== src/Files/Sending.antt =====
-- The sending side of a transfer: `sendFileWithId`, `sendNextChunk`, and the packets that the
-- receiver answers (src/libtego/source/protocol/FileChannel.cpp).
use ricochet_irc.Prelude.{
  ℕ, ◌+◌, ◌%◌, Bool, true, false, not, ◌&&◌, Option, none, some, find, contains, put, put_new,
  remove, if◌then◌else◌, ltb, ◌==◌, length, take, drop, ℤ, pos, negsuc,
}
use ricochet_irc.Wire.Frame.{Bytes}
use ricochet_irc.Connection.State.{is_inbound}
use ricochet_irc.Files.Messages.{
  FileHeaderAck, FileHeaderResponse, FileChunkAck, FilePacket, cancelled, no_message, number,
}
use ricochet_irc.Files.Transfers.{
  Transfers, Outgoing, file_max_chunk_size, send, emit, assert_that, close_channel, complete,
  emit_fatal_error, emit_non_fatal_error, result_failure, result_filesystem_error, receiving,
  file_transfer_acknowledged, file_transfer_request_responded, file_transfer_progress,
}

-- The largest `std::streamsize`.
abbrev pub max_streamsize : ℕ
max_streamsize = 9223372036854775807

-- One more than the largest `tego_file_size_t`.
abbrev pub file_size_modulus : ℕ
file_size_modulus = 18446744073709551616

abbrev pub chunk_packet : ℕ → Bytes → FilePacket
chunk_packet id chunk = record no_message {
  file_chunk = some (record { file_id = some id; chunk_data = some chunk });
}

-- What `read` leaves in the buffer; `gcount` is its length.
abbrev pub next_chunk : Outgoing → Bytes
next_chunk otr = take file_max_chunk_size otr.rest

abbrev pub advance : Outgoing → Outgoing
advance otr = record otr {
  offset = (otr.offset + length (next_chunk otr)) % file_size_modulus;
  rest = drop file_max_chunk_size otr.rest;
}

abbrev pub finished : Outgoing → Bool
finished otr = otr.offset == otr.size

unfoldable pub send_chunk_of : ℕ → Outgoing → Transfers → Transfers
send_chunk_of id otr t =
    let t' = assert_that (not (finished otr)) t in
    if length (next_chunk otr) == max_streamsize
    then send (complete id cancelled) (emit_non_fatal_error id result_filesystem_error t')
    else send (chunk_packet id (next_chunk otr))
        (record t' { outgoing_transfers = put id (advance otr) t'.outgoing_transfers })

unfoldable pub send_next_chunk : ℕ → Transfers → Transfers
send_next_chunk id t =
    let t' = assert_that (not (is_inbound t.direction)) t in
    elim (find id t.outgoing_transfers) [ none ↦ t' | some otr ↦ send_chunk_of id otr t' ]

-- What `sendFileWithId` asserts first: the channel sends, and the identifier is new to it.
abbrev pub assert_new : ℕ → Transfers → Transfers
assert_new id t =
    assert_that (not (is_inbound t.direction) && not (contains id t.outgoing_transfers)) t

-- `sendFileWithId`: `none` is a file that does not exist or does not open; otherwise its bytes.
unfoldable pub send_file_with_id : Option Bytes → Bytes → Bytes → ℕ → Transfers → Transfers × Bool
send_file_with_id none name hash id t = (assert_new id t, false)
send_file_with_id (some contents) name hash id t =
    let t' = assert_that (ltb 0 (length contents)) (assert_new id t) in
    let otr : Outgoing = record { size = length contents; offset = 0; rest = contents } in
    let header : FilePacket = record no_message {
      file_header = some (record {
        file_id = some id;
        file_size = some (length contents);
        name = some name;
        file_hash = some hash;
      });
    } in
    (send header (record t' { outgoing_transfers = put_new id otr t'.outgoing_transfers }), true)

unfoldable pub handle_file_header_ack : FileHeaderAck → Transfers → Transfers
handle_file_header_ack m t =
    if is_inbound t.direction
    then close_channel t
    else if contains (number m.file_id) t.outgoing_transfers
    then emit (file_transfer_acknowledged (number m.file_id) (accepted m.accepted)) t
    else t
  where
    accepted : Option Bool → Bool
    accepted none = false
    accepted (some b) = b

abbrev pub response_value : Option ℤ → ℤ
response_value none = pos 0
response_value (some r) = r

abbrev pub is_response : ℕ → ℤ → Bool
is_response n (pos m) = m == n
is_response n (negsuc m) = false

-- 0 accepts, 1 rejects.
unfoldable pub respond : ℕ → ℤ → Transfers → Transfers
respond id response t =
    if is_response 0 response
    then send_next_chunk id t
    else if not (is_response 1 response)
    then emit_fatal_error result_failure true t
    else record t { outgoing_transfers = remove id t.outgoing_transfers }

unfoldable pub handle_file_header_response : FileHeaderResponse → Transfers → Transfers
handle_file_header_response m t =
    if is_inbound t.direction
    then emit_fatal_error result_failure true t
    else if contains (number m.file_id) t.outgoing_transfers
    then respond (number m.file_id) (response_value m.response)
        (emit (file_transfer_request_responded (number m.file_id) (response_value m.response)) t)
    else t

unfoldable pub acknowledge : ℕ → ℕ → Outgoing → Transfers → Transfers
acknowledge id received otr t =
    if not (received == otr.offset)
    then emit_fatal_error result_failure true t
    else let t' = emit (file_transfer_progress id receiving otr.offset otr.size) t in
      if ltb otr.offset otr.size then send_next_chunk id t' else t'

unfoldable pub handle_file_chunk_ack : FileChunkAck → Transfers → Transfers
handle_file_chunk_ack m t =
    if is_inbound t.direction
    then emit_fatal_error result_failure true t
    else elim (find (number m.file_id) t.outgoing_transfers) [
      | none ↦ t
      | some otr ↦ acknowledge (number m.file_id) (number m.bytes_received) otr t
    ]
