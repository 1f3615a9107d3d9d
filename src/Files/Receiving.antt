-- ===== src/Files/Receiving.antt =====
-- The receiving side of a transfer: `handleFileHeader`, `acceptFile`, `rejectFile` and
-- `handleFileChunk` (src/libtego/source/protocol/FileChannel.cpp). `hash` is SHA3-512, which the
-- source takes from OpenSSL.
use ricochet_irc.Prelude.{
  ℕ, Bool, true, false, not, ◌||◌, ◌&&◌, List, [], ◌∷◌, ◌++◌, Option, none, some, find, contains,
  put, put_new, remove, if◌then◌else◌, ltb, ◌==◌, length, same, pos,
}
use ricochet_irc.Wire.Frame.{Bytes}
use ricochet_irc.Connection.State.{is_inbound}
use ricochet_irc.Files.Messages.{
  FileHeader, FileChunk, FilePacket, success, cancelled, no_message, number, text,
}
use ricochet_irc.Files.Transfers.{
  Transfers, Incoming, SavedFile, PartialFile, not_open, failed, holding, Disk, TransferResult,
  file_max_chunk_size, send, emit, assert_that, complete, emit_fatal_error, emit_non_fatal_error,
  result_success, result_failure, result_rejected, result_bad_hash, result_filesystem_error,
  receiving, file_transfer_request_received, file_transfer_progress, file_transfer_finished,
}

abbrev pub digest_size : ℕ
digest_size = 64

unfoldable pub has_byte : ℕ → Bytes → Bool
has_byte x [] = false
has_byte x (y ∷ ys) = (y == x) || has_byte x ys

unfoldable pub has_dots : Bytes → Bool
has_dots (x ∷ y ∷ ys) = ((x == b'.') && (y == b'.')) || has_dots (y ∷ ys)
has_dots _ = false

-- The three guards of `handleFileHeader`.
unfoldable pub is_refused : FileHeader → Bool
is_refused m =
    has_dots (text m.name)
    || (has_byte b'/' (text m.name) || not (length (text m.file_hash) == digest_size))

-- `set_accepted`, and the identifier where it is set.
abbrev pub header_ack : Option ℕ → Bool → FilePacket
header_ack id accepted = record no_message {
  file_header_ack = some (record { file_id = id; accepted = some accepted });
}

unfoldable pub handle_file_header : FileHeader → Transfers → Transfers
handle_file_header m t =
    let t' = assert_that (is_inbound t.direction) t in
    if is_refused m
    then send (header_ack none false) t'
    else let id = number m.file_id in
      let ifr : Incoming = record {
        size = number m.file_size;
        hash = text m.file_hash;
        dest = [];
        stream = not_open;
      } in
      send (header_ack (some id) true) (
        emit (file_transfer_request_received id (text m.name) ifr.size ifr.hash)
          (record t' { incoming_transfers = put_new id ifr t'.incoming_transfers }))

abbrev pub response_packet : ℕ → ℕ → FilePacket
response_packet id response = record no_message {
  file_header_response = some (record { file_id = some id; response = some (pos response) });
}

-- `open_stream`: opening a stream that is open already fails, and leaves it open.
unfoldable pub open_stream : Disk → Bytes → PartialFile → PartialFile
open_stream disk dest not_open = if disk.opens dest then holding [] else not_open
open_stream disk dest _ = failed

abbrev pub is_open : PartialFile → Bool
is_open not_open = false
is_open _ = true

unfoldable pub accept_record : Disk → ℕ → Bytes → Incoming → Transfers → Transfers × Bool
accept_record disk id dest itr t =
    let itr' = record itr { dest = dest; stream = open_stream disk dest itr.stream } in
    let t' = record t { incoming_transfers = put id itr' t.incoming_transfers } in
    if is_open itr'.stream
    then (
      emit (file_transfer_progress id receiving 0 itr.size) (send (response_packet id 0) t'),
      true,
    )
    else (t', false)

-- `acceptFile`; the Boolean is false for an exception.
unfoldable pub accept_file : Disk → ℕ → Bytes → Transfers → Transfers × Bool
accept_file disk id dest t = elim (find id t.incoming_transfers) [
  | none ↦ (t, false)
  | some itr ↦ accept_record disk id dest itr t
]

-- `rejectFile`; the Boolean is false for an exception.
unfoldable pub reject_file : ℕ → Transfers → Transfers × Bool
reject_file id t =
    if contains id t.incoming_transfers
    then (
      emit (file_transfer_finished id receiving result_rejected) (
          send (response_packet id 1)
            (record t { incoming_transfers = remove id t.incoming_transfers })),
      true,
    )
    else (t, false)

-- A write to the stream, and what `tellg` says behind it: `none` is -1.
unfoldable pub write_stream : Disk → Bytes → PartialFile → Option Bytes
write_stream disk chunk (holding written) =
    if disk.writes written chunk then some (written ++ chunk) else none
write_stream disk chunk _ = none

abbrev pub ack_packet : ℕ → ℕ → FilePacket
ack_packet id received = record no_message {
  file_chunk_ack = some (record { file_id = some id; bytes_received = some received });
}

-- The chunk is in the partial file: its progress is announced and acknowledged.
abbrev pub acknowledged : ℕ → Bytes → Incoming → Transfers → Transfers
acknowledged id written itr t = send (ack_packet id (length written)) (
    emit (file_transfer_progress id receiving (length written) itr.size) (record t {
      incoming_transfers = put id (record itr { stream = holding written }) t.incoming_transfers;
    }))

module _ (hash : Bytes → Bytes) where
  -- The outcome for a file that has all its bytes.
  unfoldable pub outcome : Disk → Bytes → Incoming → TransferResult
  outcome disk written itr =
      if not (same (hash written) itr.hash)
      then result_bad_hash
      else if disk.renames itr.dest
      then result_success
      else result_filesystem_error

  unfoldable pub save : Disk → Bytes → Incoming → List SavedFile → List SavedFile
  save disk written itr saved =
      if same (hash written) itr.hash && disk.renames itr.dest
      then record { dest = itr.dest; contents = written; size = itr.size; hash = itr.hash } ∷ saved
      else saved

  unfoldable pub finish_file : Disk → ℕ → Bytes → Incoming → Transfers → Transfers
  finish_file disk id written itr t = send (complete id success) (
      emit (file_transfer_finished id receiving (outcome disk written itr)) (record t {
        incoming_transfers = remove id t.incoming_transfers;
        saved = save disk written itr t.saved;
      }))

  unfoldable pub accept_chunk : Disk → ℕ → Bytes → Incoming → Transfers → Transfers
  accept_chunk disk id written itr t =
      let t' = acknowledged id written itr t in
      if length written == itr.size then finish_file disk id written itr t' else t'

  unfoldable pub write_chunk : Disk → ℕ → Bytes → Incoming → Transfers → Transfers
  write_chunk disk id chunk itr t = elim (write_stream disk chunk itr.stream) [
    | none ↦ send (complete id cancelled) (emit_non_fatal_error id result_filesystem_error t)
    | some written ↦ accept_chunk disk id written itr t
  ]

  unfoldable pub handle_file_chunk : Disk → FileChunk → Transfers → Transfers
  handle_file_chunk disk m t =
      if not (is_inbound t.direction)
      then emit_fatal_error result_failure true t
      else elim (find (number m.file_id) t.incoming_transfers) [
        | none ↦ t
        | some itr ↦
            if ltb file_max_chunk_size (length (text m.chunk_data))
            then emit_fatal_error result_failure true t
            else write_chunk disk (number m.file_id) (text m.chunk_data) itr t
      ]
