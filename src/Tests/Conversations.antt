-- ===== src/Tests/Conversations.antt =====
-- A conversation at concrete inputs (src/libtego/source/core/ConversationModel.cpp).
use ricochet_irc.Prelude.{◌≡◌, true, List, [], ◌∷◌, codes}
use ricochet_irc.Conversations.Messages.{
  Channels, Event, sends, receives, closes, sends_queued, run, new_conversation, message_received,
}
use ricochet_irc.Conversations.Bounds.{IsBounded, conversation-IsBounded}
use ricochet_irc.Conversations.Duplicates.{message_received-twice}

abbrev open_channels : Channels
open_channels = record { has_connection = true; is_opened = λ _. true; takes = λ _. true }

abbrev history : List Event
history =
    sends open_channels (codes "hi")
    ∷ closes
    ∷ sends_queued open_channels
    ∷ receives 3 (codes "hello")
    ∷ []

conversation-IsBounded_example : IsBounded (run history (new_conversation 0)).messages
conversation-IsBounded_example = conversation-IsBounded 0 history

message_received-twice_example :
    message_received 3
      (codes "x")
      (message_received 3 (codes "x") (run history (new_conversation 0)))
    ≡ message_received 3 (codes "x") (run history (new_conversation 0))
message_received-twice_example =
    message_received-twice 3 (codes "x") (run history (new_conversation 0))
