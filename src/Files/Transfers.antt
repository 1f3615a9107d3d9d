-- ===== src/Files/Transfers.antt =====
-- The state of a file channel and its two ways of giving up
-- (src/libtego/source/protocol/FileChannel.h, FileChannel.cpp).
use ricochet_irc.Prelude.{
  ℕ, ◌*◌, Bool, true, false, List, [], ◌∷◌, ◌++◌, some, Dict, contains, remove, if◌then◌else◌, ℤ,
}
use ricochet_irc.Wire.Frame.{Bytes}
use ricochet_irc.Connection.State.{Direction, inbound, outbound}
use ricochet_irc.Files.Messages.{
  FilePacket, FileTransferResult, success, failure, cancelled, no_message,
}

-- `tego_file_transfer_result_t`.
pub data TransferResult : Type 0 where
  result_success result_failure result_cancelled result_rejected : TransferResult
  result_bad_hash result_network_error result_filesystem_error : TransferResult

-- `tego_file_transfer_direction_t`.
pub data TransferDirection : Type 0 where
  sending receiving : TransferDirection

-- `rest` are the bytes of the file that its stream has not read yet.
pub record Outgoing : Type 0 where
  pub size : ℕ
  pub offset : ℕ
  pub rest : Bytes

-- The stream of a partial file: not open, open with the bytes written so far, or open but in the
-- state of failure, in which nothing can be written.
pub data PartialFile : Type 0 where
  not_open failed : PartialFile
  holding : Bytes → PartialFile

pub record Incoming : Type 0 where
  pub size : ℕ
  pub hash : Bytes
  pub dest : Bytes
  pub stream : PartialFile

pub data FileSignal : Type 0 where
  file_transfer_request_received : ℕ → Bytes → ℕ → Bytes → FileSignal
  file_transfer_acknowledged : ℕ → Bool → FileSignal
  file_transfer_request_responded : ℕ → ℤ → FileSignal
  file_transfer_progress : ℕ → TransferDirection → ℕ → ℕ → FileSignal
  file_transfer_finished : ℕ → TransferDirection → TransferResult → FileSignal

-- A partial file that was moved to its destination, with the size and the hash announced for it.
pub record SavedFile : Type 0 where
  pub dest : Bytes
  pub contents : Bytes
  pub size : ℕ
  pub hash : Bytes

-- `sent` are the packets handed to `sendMessage`, oldest first; `signals` those emitted and `saved`
-- the files moved, newest first; `is_closing` is set by `closeChannel`, and `has_failed_assertion` by a
-- `Q_ASSERT` that fails, behind which a release build goes on.
pub record Transfers : Type 0 where
  pub direction : Direction
  pub outgoing_transfers : Dict Outgoing
  pub incoming_transfers : Dict Incoming
  pub sent : List FilePacket
  pub signals : List FileSignal
  pub saved : List SavedFile
  pub is_closing : Bool
  pub has_failed_assertion : Bool

-- What the file system answers: whether a partial file opens, whether bytes can be written behind
-- those already in it, whether it can be moved to its destination.
pub record Disk : Type 0 where
  pub opens : Bytes → Bool
  pub writes : Bytes → Bytes → Bool
  pub renames : Bytes → Bool

abbrev pub file_max_chunk_size : ℕ
file_max_chunk_size = 63 * 1024

abbrev pub send : FilePacket → Transfers → Transfers
send p t = record t { sent = t.sent ++ p ∷ [] }

abbrev pub emit : FileSignal → Transfers → Transfers
emit s t = record t { signals = s ∷ t.signals }

-- `Q_ASSERT`.
abbrev pub assert_that : Bool → Transfers → Transfers
assert_that condition t = record t {
  has_failed_assertion = if condition then t.has_failed_assertion else true;
}

abbrev pub close_channel : Transfers → Transfers
close_channel t = record t { is_closing = true }

-- `static_cast` between the two enumerations.
abbrev pub result_of : FileTransferResult → TransferResult
result_of success = result_success
result_of failure = result_failure
result_of cancelled = result_cancelled

abbrev pub complete : ℕ → FileTransferResult → FilePacket
complete id result = record no_message {
  file_transfer_complete_notification = some (record { file_id = some id; result = some result });
}

abbrev pub finish_each :
    {A : Type 0} → TransferDirection → TransferResult → Dict A → List FileSignal → List FileSignal
finish_each direction error [] signals = signals
finish_each direction error ((id, _) ∷ rest) signals =
    finish_each direction error rest (file_transfer_finished id direction error ∷ signals)

-- All transfers of the channel's direction end, with signals in the order of the table.
unfoldable pub tear_down : TransferResult → Transfers → Transfers
tear_down error t = elim t.direction [
  | inbound ↦ record t {
    signals = finish_each receiving error t.incoming_transfers t.signals;
    incoming_transfers = [];
  }
  | outbound ↦ record t {
    signals = finish_each sending error t.outgoing_transfers t.signals;
    outgoing_transfers = [];
  }
]

-- `emitFatalError`.
unfoldable pub emit_fatal_error : TransferResult → Bool → Transfers → Transfers
emit_fatal_error error should_close t =
    if should_close then close_channel (tear_down error t) else tear_down error t

unfoldable pub emit_non_fatal_error : ℕ → TransferResult → Transfers → Transfers
emit_non_fatal_error id error t = elim t.direction [
  | inbound ↦
      if contains id t.incoming_transfers
      then emit (file_transfer_finished id receiving error)
          (record t { incoming_transfers = remove id t.incoming_transfers })
      else t
  | outbound ↦
      if contains id t.outgoing_transfers
      then emit (file_transfer_finished id sending error)
          (record t { outgoing_transfers = remove id t.outgoing_transfers })
      else t
]

-- `onConnectionClosed`.
abbrev pub on_connection_closed : Transfers → Transfers
on_connection_closed t = emit_fatal_error result_network_error false t
