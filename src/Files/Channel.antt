-- ===== src/Files/Channel.antt =====
-- A file channel as its environment drives it: `receivePacket`, the packets for both sides, and the
-- calls of the program (src/libtego/source/protocol/FileChannel.cpp).
use ricochet_irc.Prelude.{
  ℕ, Bool, true, false, not, List, [], ◌∷◌, Option, none, some, contains, remove, if◌then◌else◌,
}
use ricochet_irc.Wire.Frame.{Bytes}
use ricochet_irc.Connection.State.{Direction, is_inbound}
use ricochet_irc.Files.Messages.{
  FilePacket, FileTransferCompleteNotification, FileTransferResult, cancelled, number,
  verify_packet,
}
use ricochet_irc.Files.Transfers.{
  Transfers, TransferResult, Disk, send, emit, complete, result_of, emit_fatal_error,
  on_connection_closed, result_failure, result_cancelled, result_success, sending, receiving,
  file_transfer_finished,
}
use ricochet_irc.Files.Sending.{
  handle_file_header_ack, handle_file_header_response, handle_file_chunk_ack, send_file_with_id,
}
use ricochet_irc.Files.Receiving.{handle_file_header, handle_file_chunk, accept_file, reject_file}

abbrev pub new_transfers : Direction → Transfers
new_transfers direction = record {
  direction = direction;
  outgoing_transfers = [];
  incoming_transfers = [];
  sent = [];
  signals = [];
  saved = [];
  is_closing = false;
  has_failed_assertion = false;
}

abbrev pub notified : Option FileTransferResult → TransferResult
notified none = result_success
notified (some r) = result_of r

unfoldable pub handle_complete : FileTransferCompleteNotification → Transfers → Transfers
handle_complete m t =
    let id = number m.file_id in
    if is_inbound t.direction
    then (if contains id t.incoming_transfers
        then emit (file_transfer_finished id receiving (notified m.result))
            (record t { incoming_transfers = remove id t.incoming_transfers })
        else t)
    else if contains id t.outgoing_transfers
    then emit (file_transfer_finished id sending (notified m.result))
        (record t { outgoing_transfers = remove id t.outgoing_transfers })
    else t

abbrev pub cancelled_to_peer : ℕ → Transfers → Transfers
cancelled_to_peer id t =
    emit (file_transfer_finished id receiving result_cancelled) (send (complete id cancelled) t)

unfoldable pub cancel_transfer : ℕ → Transfers → Transfers × Bool
cancel_transfer id t =
    if is_inbound t.direction
    then (if contains id t.incoming_transfers
        then (
          cancelled_to_peer id (record t { incoming_transfers = remove id t.incoming_transfers }),
          true,
        )
        else (t, false))
    else if contains id t.outgoing_transfers
    then (
      cancelled_to_peer id (record t { outgoing_transfers = remove id t.outgoing_transfers }),
      true,
    )
    else (t, false)

pub data Call : Type 0 where
  receives : Option FilePacket → Call
  sends_file : Option Bytes → Bytes → Bytes → ℕ → Call
  accepts : ℕ → Bytes → Call
  rejects cancels : ℕ → Call
  connection_closes : Call

module _ (hash : Bytes → Bytes) where
  unfoldable pub dispatch : Disk → FilePacket → Transfers → Transfers
  dispatch disk p t = elim p.file_header [
    | some m ↦ handle_file_header m t
    | none ↦ elim p.file_header_ack [
      | some m ↦ handle_file_header_ack m t
      | none ↦ elim p.file_chunk [
        | some m ↦ handle_file_chunk hash disk m t
        | none ↦ elim p.file_header_response [
          | some m ↦ handle_file_header_response m t
          | none ↦ elim p.file_chunk_ack [
            | some m ↦ handle_file_chunk_ack m t
            | none ↦ elim p.file_transfer_complete_notification [
              | some m ↦ handle_complete m t
              | none ↦ emit_fatal_error result_failure true t
            ]
          ]
        ]
      ]
    ]
  ]

  -- `receivePacket`; `none` is a packet that does not parse.
  unfoldable pub receive_packet : Disk → Option FilePacket → Transfers → Transfers
  receive_packet disk none t = emit_fatal_error result_failure true t
  receive_packet disk (some p) t =
      if not (verify_packet p) then emit_fatal_error result_failure true t else dispatch disk p t

  unfoldable pub step : Disk → Call → Transfers → Transfers
  step disk (receives p) t = receive_packet disk p t
  step disk (sends_file contents name digest id) t = (send_file_with_id contents name digest id t).0
  step disk (accepts id dest) t = (accept_file disk id dest t).0
  step disk (rejects id) t = (reject_file id t).0
  step disk (cancels id) t = (cancel_transfer id t).0
  step disk connection_closes t = on_connection_closed t

  -- Each call with what the file system answers while it is handled.
  unfoldable pub run : List (Disk × Call) → Transfers → Transfers
  run [] t = t
  run ((disk, call) ∷ rest) t = run rest (step disk call t)
