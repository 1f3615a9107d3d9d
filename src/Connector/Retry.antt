-- ===== src/Connector/Retry.antt =====
-- The retry behind an error of an `OutboundConnector`
-- (src/libtego/source/protocol/OutboundConnector.cpp): `connectToHost` clears the field that
-- `retryAfterError` has passed to it by reference.
use ricochet_irc.Prelude.{ℕ, ◌≡◌, ap, ◌+◌, ◌∙◌, true, false, List, [], ◌∷◌, ◌==◌, arith}
use ricochet_irc.Connection.Auth.{onion}
use ricochet_irc.Connector.Status.{
  Connector, Status, ErrorMessage, Action, inactive, connecting, error, connects_socket, is_empty,
  ends_with, note, set_status, set_error, abort, drop_attempt,
}
use ricochet_irc.Connector.Attempt.{
  field, started, begin_attempt, connect_to_host, retry_after_error,
}
use ricochet_irc.Connector.Consistent.{status-set_status}

hostname-set_status : (s : Status) (c : Connector) → (set_status s c).hostname ≡ c.hostname
unfolding set_status
hostname-set_status s c = ground arith

port-set_status : (s : Status) (c : Connector) → (set_status s c).port ≡ c.port
unfolding set_status
port-set_status s c = ground arith

count-set_status :
    (s : Status) (c : Connector) → (set_status s c).error_retry_count ≡ c.error_retry_count
unfolding set_status
count-set_status s c = ground arith

status-abort : (c : Connector) → (abort c).status ≡ inactive
unfolding abort
status-abort c = status-set_status inactive _

-- The state behind an attempt on the field.
record Forgets (port : ℕ) (c : Connector) : Type 0 where
  hostname : c.hostname ≡ []
  port_kept : c.port ≡ port
  status : c.status ≡ connecting
  count : c.error_retry_count ≡ 0

hostname-abort : (c : Connector) → (abort c).hostname ≡ []
unfolding abort
hostname-abort c = hostname-set_status inactive _

count-abort : (c : Connector) → (abort c).error_retry_count ≡ 0
unfolding abort
count-abort c = count-set_status inactive _

begin_attempt-Forgets : (port : ℕ) (c : Connector) → Forgets port (begin_attempt field port c)
unfolding begin_attempt
begin_attempt-Forgets port c = record {
  hostname = hostname-set_status connecting _ ∙ hostname-abort c;
  port_kept = port-set_status connecting _;
  status = status-set_status connecting _;
  count = count-set_status connecting _ ∙ count-abort c;
}

noted :
    (c : Connector) (port : ℕ)
    → c.hostname ≡ []
    → c.port ≡ port
    → (rest : List Action) × ((note (connects_socket c.hostname c.port) c).log
        ≡ connects_socket [] port ∷ rest)
noted c port h p =
    (c.log, ap (λ x. connects_socket x c.port ∷ c.log) h ∙ ap (λ x. connects_socket [] x ∷ c.log) p)

begin_attempt-log :
    (port : ℕ) (c : Connector)
    → (rest : List Action) × ((begin_attempt field port c).log ≡ connects_socket [] port ∷ rest)
unfolding begin_attempt
begin_attempt-log port c =
    let f = begin_attempt-Forgets port c in noted (started field port c) port f.hostname f.port_kept

retry-begins :
    (c : Connector)
    → c.status ≡ error
    → is_empty c.hostname ≡ false
    → (c.port == 0) ≡ false
    → ends_with onion c.hostname ≡ true
    → retry_after_error c ≡ begin_attempt field c.port (record c { retry_timer = false })
unfolding retry_after_error connect_to_host
retry-begins c e h p o = ground arith

count-drop_attempt : (c : Connector) → (drop_attempt c).error_retry_count ≡ c.error_retry_count
unfolding drop_attempt
count-drop_attempt c = ground arith

hostname-drop_attempt : (c : Connector) → (drop_attempt c).hostname ≡ c.hostname
unfolding drop_attempt
hostname-drop_attempt c = ground arith

-- An error keeps the host, and counts.
set_error-fields :
    (m : ErrorMessage) (c : Connector)
    → ((set_error m c).hostname ≡ c.hostname)
      × ((set_error m c).error_retry_count ≡ c.error_retry_count + 1)
      × ((set_error m c).status ≡ error)
      × (c.error_retry_count ≡ 0 → (set_error m c).retry_timer ≡ true)
unfolding set_error
set_error-fields m c =
    let d = record (drop_attempt c) { error_message = m } in
    let host = hostname-set_status error d ∙ hostname-drop_attempt c in
    let count = count-set_status error d ∙ count-drop_attempt c in
    let status = status-set_status error d in
    (
      ground (arith, host),
      ground (arith, count),
      ground (arith, status),
      λ z. ground (arith, count),
    )

retry-stops :
    (c : Connector)
    → c.status ≡ error
    → c.hostname ≡ []
    → retry_after_error c ≡ abort (record c { retry_timer = false })
unfolding retry_after_error
retry-stops c e h = ground arith

-- When the timer fires for a connector in the status error, with an onion host and a port other than
-- zero, the retry does not go to that host: it opens a socket to the empty name. It also starts the
-- count of errors again, so that an error behind it sets the timer, whatever the number of errors
-- before; and the retry after that one gives up.
pub retry_forgets_host :
    (c : Connector) (m : ErrorMessage)
    → c.status ≡ error
    → is_empty c.hostname ≡ false
    → (c.port == 0) ≡ false
    → ends_with onion c.hostname ≡ true
    → let c' = retry_after_error c in
      let c'' = set_error m c' in
      ((rest : List Action) × (c'.log ≡ connects_socket [] c.port ∷ rest))
      × (c'.status ≡ connecting)
      × (c'.hostname ≡ [])
      × (c''.error_retry_count ≡ 1)
      × (c''.retry_timer ≡ true)
      × ((retry_after_error c'').status ≡ inactive)
retry_forgets_host c m e h p o =
    let d = record c { retry_timer = false } in
    rw (retry-begins c e h p o) (
      let f = begin_attempt-Forgets c.port d in
      let (host, count, status, timer) = set_error-fields m (begin_attempt field c.port d) in
      (
        begin_attempt-log c.port d,
        f.status,
        f.hostname,
        count ∙ ap (λ n. n + 1) f.count,
        timer f.count,
        ap (λ x. x.status)
              (retry-stops (set_error m (begin_attempt field c.port d)) status (host ∙ f.hostname))
            ∙ status-abort
                (record (set_error m (begin_attempt field c.port d)) { retry_timer = false }),
      ))
