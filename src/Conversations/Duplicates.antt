-- ===== src/Conversations/Duplicates.antt =====
-- A message that arrives twice (src/libtego/source/core/ConversationModel.cpp).
use ricochet_irc.Prelude.{
  ℕ, zero, suc, ◌≤◌, ◌≡◌, refl, ap, ◌∙◌, Bool, true, false, not, ◌&&◌, List, [], ◌∷◌, Option, none,
  some, if◌then◌else◌, ltb, ◌==◌, ==_refl, length, take, same, same_refl, arith, if_cases, if_both,
}
use ricochet_irc.Connection.State.{Text}
use ricochet_irc.Conversations.Messages.{
  MessageStatus, MessageData, Conversation, received, queued, sending, delivered, error,
  is_delivered, is_sending, is_queued, is_duplicate, first_settled, row_of, insert_at, incoming,
  prune, history_limit, message_received,
}

-- A message that is on its way is not delivered.
not_delivered :
    (s : MessageStatus) → (not (is_sending s) && not (is_queued s)) ≡ false → is_delivered s ≡ false
not_delivered sending e = refl
not_delivered queued e = refl
not_delivered received e = refl
not_delivered delivered e = absurd (cc)
not_delivered error e = refl

duplicate-here :
    (n id : ℕ) (text : Text) (ms : List MessageData)
    → is_duplicate (suc n) id text (incoming id text ∷ ms) ≡ true
unfolding is_duplicate
duplicate-here n id text ms = rw (==_refl id, same_refl text) refl

duplicate-there :
    (n id : ℕ) (text : Text) (m : MessageData) (ms : List MessageData)
    → is_delivered m.status ≡ false
    → is_duplicate n id text ms ≡ true
    → is_duplicate (suc n) id text (m ∷ ms) ≡ true
unfolding is_duplicate
duplicate-there n id text m ms d e =
    rw (d, e)
      (if_both (λ b. b ≡ true) ((m.identifier == id) && same m.text text) true true refl refl)

-- A later row was found, so this message is on its way.
later_row :
    (b : Bool) (o : Option ℕ) (i : ℕ)
    → (if b then some 0 else elim o as (λ _. Option ℕ) [ none ↦ none | some j ↦ some (suc j) ])
      ≡ some (suc i)
    → (b ≡ false) × (o ≡ some i)
later_row true o i e = absurd (cc)
later_row false none i e = absurd (cc)
later_row false (some j) i e =
    let same_suc : suc j ≡ suc i = cc in
    let same_index : j ≡ i = omega arith in (refl, ap some same_index)

duplicate-insert_at :
    (n id : ℕ) (text : Text) (ms : List MessageData) (i : ℕ)
    → first_settled n ms ≡ some i
    → is_duplicate n id text (insert_at i (incoming id text) ms) ≡ true
unfolding first_settled
duplicate-insert_at zero id text ms i e = absurd (cc)
duplicate-insert_at (suc n) id text [] i e = absurd (cc)
duplicate-insert_at (suc n) id text (m ∷ ms) zero e = duplicate-here n id text (m ∷ ms)
duplicate-insert_at (suc n) id text (m ∷ ms) (suc i) e =
    let (on_its_way, found) =
      later_row (not (is_sending m.status) && not (is_queued m.status)) (first_settled n ms) i e in
    duplicate-there n id text m _ (not_delivered m.status on_its_way)
      (duplicate-insert_at n id text ms i found)

duplicate-take :
    (n k id : ℕ) (text : Text) (ms : List MessageData)
    → n ≤ k
    → is_duplicate n id text (take k ms) ≡ is_duplicate n id text ms
unfolding is_duplicate
duplicate-take zero k id text ms h = refl
duplicate-take (suc n) zero id text ms h = absurd (omega arith)
duplicate-take (suc n) (suc k) id text [] h = refl
duplicate-take (suc n) (suc k) id text (m ∷ ms) h =
    rw (duplicate-take n k id text ms (omega arith)) refl

duplicate-prune :
    (id : ℕ) (text : Text) (ms : List MessageData)
    → is_duplicate 5 id text (prune ms) ≡ is_duplicate 5 id text ms
unfolding prune
duplicate-prune id text ms =
    if_both (λ l. is_duplicate 5 id text l ≡ is_duplicate 5 id text ms)
      (ltb history_limit (length ms)) _ _ (duplicate-take 5 history_limit id text ms (omega arith))
      refl

duplicate-row_of :
    (id : ℕ) (text : Text) (ms : List MessageData)
    → is_duplicate 5 id text (insert_at (row_of ms) (incoming id text) ms) ≡ true
duplicate-row_of id text ms = by_row (first_settled 5 ms) refl
  where
    by_row :
        (o : Option ℕ)
        → first_settled 5 ms ≡ o
        → is_duplicate 5 id text
            (insert_at (elim o as (λ _. ℕ) [ none ↦ 0 | some i ↦ i ]) (incoming id text) ms)
          ≡ true
    by_row none e = duplicate-here 4 id text ms
    by_row (some i) e = duplicate-insert_at 5 id text ms i e

duplicate_ignored :
    (id : ℕ) (text : Text) (c : Conversation)
    → is_duplicate 5 id text c.messages ≡ true
    → message_received id text c ≡ c
unfolding message_received
duplicate_ignored id text c e = rw e refl

duplicate-message_received :
    (id : ℕ) (text : Text) (c : Conversation)
    → is_duplicate 5 id text (message_received id text c).messages ≡ true
unfolding message_received
duplicate-message_received id text c =
    if_cases (λ (d : Conversation). is_duplicate 5 id text d.messages ≡ true)
      (is_duplicate 5 id text c.messages) c _ (λ e. e)
      (λ _.
        duplicate-prune id text (insert_at (row_of c.messages) (incoming id text) c.messages)
        ∙ duplicate-row_of id text c.messages)

-- A message that the peer sends again at once, with the same identifier, zero included, and the
-- same text, changes nothing, in any conversation: it is neither shown nor counted a second time.
pub message_received-twice :
    (id : ℕ) (text : Text) (c : Conversation)
    → message_received id text (message_received id text c) ≡ message_received id text c
message_received-twice id text c =
    duplicate_ignored id text (message_received id text c) (duplicate-message_received id text c)
