-- ===== src/Notifications/Worker.antt =====
-- NotificationWorker of backend/internal/service/notification_worker.go. The network, the resolver, the
-- mail server, strings.ToLower and the text of an error are arguments; logging is left out.
use Prim.Native.Nat.{min, max}
use nexa_flow.Prelude.{
  ℕ, ◌-◌, ◌*◌, ◌^◌, Bool, not, ◌&&◌, ◌||◌, List, [], ◌∷◌, any, Option, none, some, String, Result,
  ok, err, ◌>>=◌, guard, ltb, leb, ◌==◌, if◌then◌else◌, string_eq,
}
use nexa_flow.Prelude.Int.{ℤ, pos, ltb_ℤ, ◌+ℤ◌}
use nexa_flow.Strings.{trim_space}
use nexa_flow.Notifications.Outbox.{
  Row, OutboxError, claim_pending, mark_delivered, mark_failed, mark_dead_letter,
}

pub data DeliveryError : Type 0 where
  unsupported_channel : String → DeliveryError
  invalid_url : DeliveryError
  not_https : DeliveryError
  not_allowed : DeliveryError
  lookup_failed : DeliveryError
  localhost_refused : DeliveryError
  no_address : DeliveryError
  private_address : DeliveryError
  request_failed : DeliveryError
  bad_status : ℕ → DeliveryError
  mail_failed : DeliveryError

pub record Address : Type 0 where
  pub loopback : Bool
  pub private_range : Bool
  pub link_local : Bool
  pub unspecified : Bool

-- url.Parse answers the scheme, the host name and the text of the URL.
pub record Target : Type 0 where
  pub scheme : String
  pub host : String
  pub text : String

pub record Network : Type 0 where
  pub to_lower : String → String
  pub parse_url : String → Option Target
  pub is_ip : String → Bool
  pub is_localhost : String → Bool
  pub lookup_ip : String → Option (List Address)
  -- The status of the response, if there is one.
  pub post : String → Row → Option ℕ
  pub send_mail : Row → Bool

pub record NotificationConfig : Type 0 where
  pub batch_size : ℤ
  pub max_attempts : ℤ
  pub webhook_allowlist : List String

abbrev pub is_private : Address → Bool
is_private a = a.loopback || a.private_range || a.link_local || a.unspecified

abbrev pub minute : ℕ
minute = 60_000_000_000

-- nextAttempt
unfoldable pub next_attempt : ℤ → ℕ → ℤ
next_attempt now attempt = now +ℤ pos (2 ^ min (max attempt 1 - 1) 6 * minute)

module _ (net : Network) where
  abbrev pub clean : String → String
  clean s = net.to_lower (trim_space s)

  -- webhookAllowed
  unfoldable pub webhook_allowed : String → List String → Bool
  webhook_allowed host allowlist =
      not (net.is_ip (clean host))
      && any (λ allowed. not (clean allowed == "") && clean host == clean allowed) allowlist

  abbrev pub check_addresses : Option (List Address) → Result DeliveryError (Unit {0})
  check_addresses none = err lookup_failed
  check_addresses (some []) = err no_address
  check_addresses (some (a ∷ more)) = guard (not (any is_private (a ∷ more))) private_address

  -- publicWebhookHost
  unfoldable pub public_webhook_host : String → Result DeliveryError (Unit {0})
  public_webhook_host host =
      if net.is_localhost host then err localhost_refused else check_addresses (net.lookup_ip host)

  abbrev pub answered : Option ℕ → Result DeliveryError (Unit {0})
  answered none = err request_failed
  answered (some status) =
      if ltb status 200 || leb 300 status then err (bad_status status) else ok tt

  abbrev pub send_to : List String → Row → Option Target → Result DeliveryError (Unit {0})
  send_to allowlist row none = err invalid_url
  send_to allowlist row (some target) =
      if target.scheme == "" || target.host == ""
      then err invalid_url
      else if not (target.scheme == "https")
      then err not_https
      else if not (webhook_allowed target.host allowlist)
      then err not_allowed
      else (public_webhook_host target.host >>= λ _. answered (net.post target.text row))

  -- deliverWebhook
  unfoldable pub deliver_webhook : List String → Row → Result DeliveryError (Unit {0})
  deliver_webhook allowlist row = send_to allowlist row (net.parse_url (trim_space row.recipient))

  -- deliver
  unfoldable pub deliver : NotificationConfig → Row → Result DeliveryError (Unit {0})
  deliver cfg row =
      if row.channel == "inapp"
      then ok tt
      else if row.channel == "webhook"
      then deliver_webhook cfg.webhook_allowlist row
      else if row.channel == "email"
      then guard (net.send_mail row) mail_failed
      else err (unsupported_channel row.channel)

-- A mark that fails is only logged.
abbrev pub or_same : Result OutboxError (List Row) → List Row → List Row
or_same (ok rows') rows = rows'
or_same (err e) rows = rows

-- What the loop of ProcessBatch does with the result of a delivery.
unfoldable pub settle_row :
    NotificationConfig
    → (DeliveryError → String)
    → ℤ
    → Row
    → Result DeliveryError (Unit {0})
    → List Row
    → List Row
unfolding mark_delivered mark_failed mark_dead_letter
settle_row cfg reason now row (ok u) rows = or_same (mark_delivered row.id now rows) rows
settle_row cfg reason now row (err e) rows =
    if ltb_ℤ (pos 0) cfg.max_attempts && not (ltb_ℤ (pos row.attempt_count) cfg.max_attempts)
    then or_same (mark_dead_letter row.id (reason e) rows) rows
    else or_same (mark_failed row.id (reason e) (next_attempt now row.attempt_count) rows) rows

-- The loop of ProcessBatch; `clock` gives the time after the delivery of a row.
unfoldable pub process_rows :
    Network
    → NotificationConfig
    → (DeliveryError → String)
    → (Row → ℤ)
    → List Row
    → List Row
    → List Row
unfolding settle_row deliver
process_rows net cfg reason clock [] rows = rows
process_rows net cfg reason clock (row ∷ claimed) rows =
    process_rows net cfg reason clock claimed
      (settle_row cfg reason (clock row) row (deliver net cfg row) rows)

abbrev pub batch : ℤ → ℤ
batch n = if ltb_ℤ n (pos 1) then pos 25 else n

-- ProcessBatch, with five minutes until a claim is stale.
unfoldable pub process_batch :
    Network → NotificationConfig → (DeliveryError → String) → (Row → ℤ) → ℤ → List Row → List Row
unfolding claim_pending process_rows
process_batch net cfg reason clock now rows =
    let claimed = claim_pending now (batch cfg.batch_size) (pos (5 * minute)) rows in
    process_rows net cfg reason clock claimed.0 claimed.1
