-- ===== src/Notifications/Examples.antt =====
-- Deliveries of concrete notifications, after backend/internal/service/notification_worker_test.go.
use nexa_flow.Prelude.{
  ℕ, ◌≤◌, ◌<◌, ◌≡◌, refl, true, false, List, [], ◌∷◌, none, some, String, err, string_eq,
  String_discrete, ℕ_discrete,
}
use nexa_flow.Prelude.Int.{pos}
use nexa_flow.Strings.{trim_space}
use nexa_flow.Notifications.Outbox.{Row}
use nexa_flow.Notifications.Worker.{
  not_https, Address, Target, Network, NotificationConfig, webhook_allowed, public_webhook_host,
  deliver_webhook, settle_row,
}
use nexa_flow.Notifications.Webhooks.{IsSafe, deliver_webhook-IsSafe}
use nexa_flow.Notifications.Outcomes.{Settled, Changes, settle_row-outcome}

abbrev hook : String → String → Row
hook id status = record {
  id = id;
  tenant_id = "t1";
  channel = "webhook";
  recipient = "https://hooks.test/a";
  subject = "";
  body = "";
  status = status;
  attempt_count = 0;
  next_attempt_at = none;
  claimed_at = none;
  delivered_at = none;
  last_error = "";
}

abbrev public_address : Address
public_address = record {
  loopback = false;
  private_range = false;
  link_local = false;
  unspecified = false;
}

abbrev web : Network
web = record {
  to_lower = λ s. s;
  parse_url = λ s. some (record { scheme = "https"; host = "hooks.test"; text = s });
  is_ip = λ s. false;
  is_localhost = λ s. false;
  lookup_ip = λ s. some (public_address ∷ []);
  post = λ s row. some 204;
  send_mail = λ row. true;
}

abbrev table : List Row
table = hook "n1" "pending" ∷ hook "n2" "delivered" ∷ hook "n3" "failed" ∷ []

abbrev three : NotificationConfig
three = record { batch_size = pos 25; max_attempts = pos 3; webhook_allowlist = "hooks.test" ∷ [] }

deliver_webhook-IsSafe_example :
    (target : Target) × (web.parse_url (trim_space "https://hooks.test/a") ≡ some target)
    × IsSafe web ("hooks.test" ∷ []) target
    × (n : ℕ) × (web.post target.text (hook "n1" "processing") ≡ some n)
    × (200 ≤ n)
    × (n < 300)
unfolding deliver_webhook webhook_allowed public_webhook_host trim_space String_discrete ℕ_discrete
deliver_webhook-IsSafe_example =
    deliver_webhook-IsSafe web ("hooks.test" ∷ []) (hook "n1" "processing") tt refl

settle_row-outcome_example :
    Changes "n1"
      (Settled three (λ e. "refused") (pos 9) 0 (err not_https))
      table
      (settle_row three (λ e. "refused") (pos 9) (hook "n1" "processing") (err not_https) table)
settle_row-outcome_example =
    settle_row-outcome three (λ e. "refused") (pos 9) (hook "n1" "processing") (err not_https) table
