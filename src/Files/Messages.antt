-- ===== src/Files/Messages.antt =====
-- The messages of a file channel and the checks on a packet that has been parsed
-- (src/libtego/source/protocol/FileChannel.proto and `verifyPacket` of FileChannel.cpp).
use ricochet_irc.Prelude.{
  ℕ, ◌+◌, Bool, false, ◌&&◌, [], Option, none, some, is_some, if◌then◌else◌, ◌==◌, ℤ,
}
use ricochet_irc.Wire.Frame.{Bytes}

pub data FileTransferResult : Type 0 where
  success failure cancelled : FileTransferResult

pub record FileHeader : Type 0 where
  pub file_id : Option ℕ
  pub file_size : Option ℕ
  pub name : Option Bytes
  pub file_hash : Option Bytes

pub record FileHeaderAck : Type 0 where
  pub file_id : Option ℕ
  pub accepted : Option Bool

pub record FileHeaderResponse : Type 0 where
  pub file_id : Option ℕ
  pub response : Option ℤ

pub record FileChunk : Type 0 where
  pub file_id : Option ℕ
  pub chunk_data : Option Bytes

pub record FileChunkAck : Type 0 where
  pub file_id : Option ℕ
  pub bytes_received : Option ℕ

pub record FileTransferCompleteNotification : Type 0 where
  pub file_id : Option ℕ
  pub result : Option FileTransferResult

pub record FilePacket : Type 0 where
  pub file_header : Option FileHeader
  pub file_header_ack : Option FileHeaderAck
  pub file_header_response : Option FileHeaderResponse
  pub file_chunk : Option FileChunk
  pub file_chunk_ack : Option FileChunkAck
  pub file_transfer_complete_notification : Option FileTransferCompleteNotification

abbrev pub no_message : FilePacket
no_message = record {
  file_header = none;
  file_header_ack = none;
  file_header_response = none;
  file_chunk = none;
  file_chunk_ack = none;
  file_transfer_complete_notification = none;
}

-- A field that is not set reads as 0, or as no bytes.
abbrev pub number : Option ℕ → ℕ
number none = 0
number (some n) = n

abbrev pub text : Option Bytes → Bytes
text none = []
text (some b) = b

abbrev count : Bool → ℕ
count b = if b then 1 else 0

unfoldable pub message_count : FilePacket → ℕ
message_count p =
    count (is_some p.file_header)
    + (count (is_some p.file_header_ack)
        + (count (is_some p.file_chunk)
            + (count (is_some p.file_header_response)
                + (count (is_some p.file_chunk_ack)
                    + count (is_some p.file_transfer_complete_notification)))))

abbrev pub verify_file_header : FileHeader → Bool
verify_file_header m =
    is_some m.file_id && (is_some m.file_size && (is_some m.name && is_some m.file_hash))

abbrev pub verify_file_header_ack : FileHeaderAck → Bool
verify_file_header_ack m = is_some m.file_id && is_some m.accepted

abbrev pub verify_file_header_response : FileHeaderResponse → Bool
verify_file_header_response m = is_some m.file_id && is_some m.response

abbrev pub verify_file_chunk : FileChunk → Bool
verify_file_chunk m = is_some m.file_id && is_some m.chunk_data

abbrev pub verify_file_chunk_ack : FileChunkAck → Bool
verify_file_chunk_ack m = is_some m.file_id && is_some m.bytes_received

abbrev pub verify_complete : FileTransferCompleteNotification → Bool
verify_complete m = is_some m.file_id && is_some m.result

-- The message that the packet has, if it is the only one.
unfoldable pub verify_message : FilePacket → Bool
verify_message p = elim p.file_header [
  | some m ↦ verify_file_header m
  | none ↦ elim p.file_header_ack [
    | some m ↦ verify_file_header_ack m
    | none ↦ elim p.file_chunk [
      | some m ↦ verify_file_chunk m
      | none ↦ elim p.file_header_response [
        | some m ↦ verify_file_header_response m
        | none ↦ elim p.file_chunk_ack [
          | some m ↦ verify_file_chunk_ack m
          | none ↦ elim p.file_transfer_complete_notification [
            | some m ↦ verify_complete m
            | none ↦ false
          ]
        ]
      ]
    ]
  ]
]

unfoldable pub verify_packet : FilePacket → Bool
unfolding message_count verify_message
verify_packet p = if message_count p == 1 then verify_message p else false
