-- ===== src/Files/Refusal.antt =====
-- What becomes of a file header that the receiver refuses
-- (src/libtego/source/protocol/FileChannel.cpp): its acknowledgement has no identifier, and
-- `verifyFileHeaderAck` of the sender wants one.
use ricochet_irc.Prelude.{◌≡◌, refl, ap, true, false, [], ◌∷◌, ◌++◌, none, some}
use ricochet_irc.Wire.Frame.{Bytes}
use ricochet_irc.Connection.State.{Direction, inbound, outbound}
use ricochet_irc.Files.Messages.{FilePacket, FileHeader, verify_packet}
use ricochet_irc.Files.Transfers.{Transfers, Disk, result_failure, emit_fatal_error, tear_down}
use ricochet_irc.Files.Receiving.{handle_file_header, header_ack, is_refused}
use ricochet_irc.Files.Channel.{receive_packet}

refusal_unverified : verify_packet (header_ack none false) ≡ false
unfolding verify_packet
refusal_unverified = refl

outbound_branch :
    (d : Direction) (x y : Transfers)
    → d ≡ outbound
    → (elim d as (λ _. Transfers) [ inbound ↦ x | outbound ↦ y ]) ≡ y
outbound_branch inbound x y e = absurd (cc)
outbound_branch outbound x y e = refl

outgoing-fatal :
    (s : Transfers)
    → s.direction ≡ outbound
    → (emit_fatal_error result_failure true s).outgoing_transfers ≡ []
unfolding emit_fatal_error tear_down
outgoing-fatal s e = ap (λ t. t.outgoing_transfers) (outbound_branch s.direction _ _ e)

closing-fatal : (s : Transfers) → (emit_fatal_error result_failure true s).is_closing ≡ true
unfolding emit_fatal_error
closing-fatal s = refl

-- A header that the receiver refuses is answered by one packet, and that packet, once the sender
-- receives it, ends every transfer of the sender and closes its channel.
pub refused_header_fatal :
    (hash : Bytes → Bytes) (disk : Disk) (m : FileHeader) (t s : Transfers)
    → is_refused m ≡ true
    → s.direction ≡ outbound
    → (p : FilePacket) × ((handle_file_header m t).sent ≡ t.sent ++ p ∷ [])
      × ((receive_packet hash disk (some p) s).outgoing_transfers ≡ [])
      × ((receive_packet hash disk (some p) s).is_closing ≡ true)
unfolding handle_file_header receive_packet
refused_header_fatal hash disk m t s e d = (
  header_ack none false,
  rw e refl,
  rw refusal_unverified (outgoing-fatal s d),
  rw refusal_unverified (closing-fatal s),
)
