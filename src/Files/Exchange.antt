-- ===== src/Files/Exchange.antt =====
-- Two file channels of one connection, which exchange packets
-- (src/libtego/source/protocol/FileChannel.cpp). Packets arrive whole and in their order.
pub mod Turns
pub mod Arrival
pub mod Offer
use ricochet_irc.Prelude.{ℕ, zero, suc, List, [], ◌∷◌, some, length, drop}
use ricochet_irc.Wire.Frame.{Bytes}
use ricochet_irc.Files.Messages.{FilePacket}
use ricochet_irc.Files.Transfers.{Transfers, Disk}
use ricochet_irc.Files.Sending.{send_file_with_id}
use ricochet_irc.Files.Receiving.{accept_file}
use ricochet_irc.Files.Channel.{receive_packet}

-- `mail` are the sender's packets on their way to the receiver.
pub record Link : Type 0 where
  pub mail : List FilePacket
  pub sender : Transfers
  pub receiver : Transfers

-- The packets sent between two states of a channel.
abbrev pub news : Transfers → Transfers → List FilePacket
news before after = drop (length before.sent) after.sent

module _ (hash : Bytes → Bytes) (disk : Disk) where
  unfoldable pub receive_all : List FilePacket → Transfers → Transfers
  receive_all [] t = t
  receive_all (p ∷ ps) t = receive_all ps (receive_packet hash disk (some p) t)

  -- The receiver takes the mail, and the sender takes what the receiver answers.
  unfoldable pub turn : Link → Link
  turn l =
      let r = receive_all l.mail l.receiver in
      let s = receive_all (news l.receiver r) l.sender in
      record { mail = news l.sender s; sender = s; receiver = r }

  unfoldable pub exchange : ℕ → Link → Link
  exchange zero l = l
  exchange (suc n) l = exchange n (turn l)

  -- The sender offers a file, the receiver has the offer, its user accepts it, and the sender has
  -- both answers.
  unfoldable pub accepted_offer : Bytes → Bytes → Bytes → ℕ → Transfers → Transfers → Link
  accepted_offer contents name dest id s r =
      let s' = (send_file_with_id (some contents) name (hash contents) id s).0 in
      let r' = (accept_file disk id dest (receive_all (news s s') r)).0 in
      let s'' = receive_all (news r r') s' in
      record { mail = news s' s''; sender = s''; receiver = r' }
