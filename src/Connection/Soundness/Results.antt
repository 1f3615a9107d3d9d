-- ===== src/Connection/Soundness/Results.antt =====
-- The peer's answer to a request to open a channel keeps a connection sound.
use ricochet_irc.Prelude.{
  ℕ, ◌≡◌, true, not, ◌||◌, none, some, Entries-find, find, put, is_some, arith, if_both,
  option_both, natural, length, ◌==◌,
}
use ricochet_irc.Connection.State.{
  Conn, Channel, Text, Kind, control, auth_hidden_service, chat, contact_request, file_transfer,
  emit, is_inbound, channel_opened, channel_rejected, connection_channel_opened,
}
use ricochet_irc.Connection.Channels.{close_channel, invalidate, send_message}
use ricochet_irc.Connection.Requests.{
  Env, ChannelResult, process_result, handle_response, cookie_size,
}
use ricochet_irc.Connection.Control.{
  mark_opened, on_channel_opened, send_auth_message, accept_result, cancel_result, handle_pending,
  handle_result_for, handle_channel_result, error_of,
}
use ricochet_irc.Connection.Soundness.{ChannelOk, IsSound}
use ricochet_irc.Connection.Soundness.Parts.{
  send_message-IsSound, close_channel-IsSound, invalidate-IsSound, Sound-put,
}

module _ {Proven : Text → Type 0} where
  -- `processChannelOpenResult` changes no field that an entry's soundness rests on.
  process_result-keeps :
      (kind : Kind) (r : ChannelResult) (id : ℕ) (ch : Channel) (c : Conn) (ch' : Channel)
      (c' : Conn)
      → IsSound Proven c
      → ChannelOk c.side c.purpose id ch
      → process_result kind r ch c ≡ some (ch', c')
      → IsSound Proven c' × ChannelOk c'.side c'.purpose id ch'
  unfolding process_result handle_response
  process_result-keeps control r id ch c ch' c' s ok e = ground arith
  process_result-keeps auth_hidden_service r id ch c ch' c' s ok e = ground arith
  process_result-keeps chat r id ch c ch' c' s ok e = ground arith
  process_result-keeps contact_request r id ch c ch' c' s ok e = ground arith
  process_result-keeps file_transfer r id ch c ch' c' s ok e = ground arith

  on_channel_opened-IsSound :
      (env : Env) (id : ℕ) (ch : Channel) (c : Conn)
      → IsSound Proven c
      → IsSound Proven (on_channel_opened env id ch c)
  unfolding on_channel_opened send_auth_message
  on_channel_opened-IsSound env id ch c s = by_kind ch.kind
    where
      by_kind :
          (k : Kind)
          → IsSound Proven (elim k [ auth_hidden_service ↦ send_auth_message env id ch c | _ ↦ c ])
      by_kind auth_hidden_service =
          if_both (IsSound Proven)
            (not (length ch.client_cookie == cookie_size)
              || not (length ch.server_cookie == cookie_size))
            (close_channel id c) (send_message id (env.proof_packet ch) c).0
            (close_channel-IsSound id c s) (send_message-IsSound id (env.proof_packet ch) c s)
      by_kind _ = s

  mark_opened-IsSound :
      (env : Env) (id : ℕ) (ch : Channel) (c : Conn)
      → IsSound Proven c
      → ChannelOk c.side c.purpose id ch
      → IsSound Proven (mark_opened env id ch c)
  unfolding mark_opened
  mark_opened-IsSound env id ch c s ok =
      let c' = record c { channels = put id ch c.channels } in
      let c'' = on_channel_opened env id ch (emit (channel_opened id) c') in
      let s'' =
        on_channel_opened-IsSound env id ch (emit (channel_opened id) c')
          (Sound-put id ch c s ok) in
      if_both (IsSound Proven) (is_some (find id c''.channels))
        (emit (connection_channel_opened id) c'') c'' s'' s''

  accept_result-IsSound :
      (env : Env) (id : ℕ) (r : ChannelResult) (ch : Channel) (c : Conn)
      → IsSound Proven c
      → ChannelOk c.side c.purpose id ch
      → IsSound Proven (accept_result env id r ch c)
  unfolding accept_result
  accept_result-IsSound env id r ch c s ok =
      let opened_ok : ChannelOk c.side c.purpose id (record ch { is_opened = true }) =
        ground arith in
      if_both (IsSound Proven) r.opened (mark_opened env id (record ch { is_opened = true }) c)
        (invalidate id ch (emit (channel_rejected id (error_of r)) c))
        (mark_opened-IsSound env id (record ch { is_opened = true }) c s opened_ok)
        (invalidate-IsSound id ch (emit (channel_rejected id (error_of r)) c) s)

  cancel_result-IsSound :
      (id : ℕ) (r : ChannelResult) (ch : Channel) (c : Conn)
      → IsSound Proven c
      → IsSound Proven (cancel_result id r ch c)
  unfolding cancel_result
  cancel_result-IsSound id r ch c s =
      if_both (IsSound Proven) r.opened
        (emit (channel_rejected id (error_of r)) (close_channel id c))
        (invalidate id ch (emit (channel_rejected id (error_of r)) c))
        (close_channel-IsSound id c s)
        (invalidate-IsSound id ch (emit (channel_rejected id (error_of r)) c) s)

  handle_pending-IsSound :
      (env : Env) (id : ℕ) (r : ChannelResult) (ch : Channel) (c : Conn)
      → IsSound Proven c
      → ChannelOk c.side c.purpose id ch
      → IsSound Proven (handle_pending env id r ch c)
  unfolding handle_pending
  handle_pending-IsSound env id r ch c s ok =
      let answered : Channel × Conn → Conn = λ p. accept_result env id r p.0 p.1 in
      if_both (IsSound Proven) (is_inbound ch.direction || ch.is_opened) c
        (elim (process_result ch.kind r ch c) [
          | none ↦ cancel_result id r ch c
          | some (ch', c') ↦ accept_result env id r ch' c'
        ])
        s
        (option_both (IsSound Proven) (process_result ch.kind r ch c) (cancel_result id r ch c)
          answered (cancel_result-IsSound id r ch c s)
          λ (ch', c') e.
            let kept = process_result-keeps ch.kind r id ch c ch' c' s ok e in
            accept_result-IsSound env id r ch' c' kept.0 kept.1)

  handle_result_for-IsSound :
      (env : Env) (id : ℕ) (r : ChannelResult) (c : Conn)
      → IsSound Proven c
      → IsSound Proven (handle_result_for env id r c)
  unfolding handle_result_for
  handle_result_for-IsSound env id r c s =
      option_both (IsSound Proven) (find id c.channels) c (λ ch. handle_pending env id r ch c) s
        λ ch e.
          handle_pending-IsSound env id r ch c s
            (Entries-find (ChannelOk c.side c.purpose) id c.channels ch s.entries e)

  pub handle_channel_result-IsSound :
      (env : Env) (r : ChannelResult) (c : Conn)
      → IsSound Proven c
      → IsSound Proven (handle_channel_result env r c)
  unfolding handle_channel_result
  handle_channel_result-IsSound env r c s =
      option_both (IsSound Proven) (natural r.channel_identifier) c
        (λ id. handle_result_for env id r c) s (λ id _. handle_result_for-IsSound env id r c s)
