-- ===== src/Tests/Chats.antt =====
-- A chat at concrete inputs (src/libtego/source/protocol/ChatChannel.cpp).
use ricochet_irc.Prelude.{◌≡◌, refl, Bool, true, List, [], ◌∷◌, some, none, All}
use ricochet_irc.Connection.State.{outbound}
use ricochet_irc.Chats.Channel
use ricochet_irc.Chats.Channel.{
  Chat, ChatEvent, Encoding, receives, sends, acknowledge_packet, message_acknowledged, new_chat,
  run, step,
}
use ricochet_irc.Chats.Acknowledged.{IsAnswer, is_sent, acknowledged_were_sent}

abbrev plain : Encoding
plain = record { to_utf8 = λ u. u; from_utf8 = λ b. b }

-- One message is sent; its acknowledgement comes twice, and one that nobody waits for.
abbrev talk : List (Bool × ChatEvent)
talk =
    (true, sends (b'h' ∷ b'i' ∷ []) none 4)
    ∷ (true, receives (some (acknowledge_packet 9 true)))
    ∷ (true, receives (some (acknowledge_packet 4 true)))
    ∷ (true, receives (some (acknowledge_packet 4 true)))
    ∷ []

abbrev talked : Chat
talked = run plain talk (new_chat outbound)

talk_signals : talked.signals ≡ message_acknowledged 4 true ∷ []
unfolding run step Channel.receive_packet Channel.handle_chat_acknowledge Channel.acknowledge_id
    Channel.is_pending Channel.remove_pending Channel.insert_pending Channel.send_chat_message
    Channel.send_text
talk_signals = refl

acknowledged_were_sent_example :
    All (IsAnswer talked.sent) talked.signals
    × All (λ id. is_sent id talked.sent ≡ true) talked.pending_messages
acknowledged_were_sent_example = acknowledged_were_sent plain outbound talk
