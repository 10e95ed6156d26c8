-- ===== src/Notifications/Webhooks.antt =====
-- Where deliverWebhook of backend/internal/service/notification_worker.go sends.
use nexa_flow.Prelude.{
  ℕ, ◌≤◌, ◌<◌, ◌≡◌, refl, true, false, not, ◌&&◌, ◌||◌, List, [], ◌∷◌, any, Option, none, some,
  String, ok, >>=-eq-ok, passed, ◌==◌, string_eq, arith,
}
use nexa_flow.Strings.{trim_space}
use nexa_flow.Notifications.Outbox.{Row}
use nexa_flow.Notifications.Worker.{
  Address, Target, Network, is_private, clean, webhook_allowed, check_addresses,
  public_webhook_host, answered, send_to, deliver_webhook,
}

module _ (net : Network) where
  -- A host that deliverWebhook may call.
  pub record IsSafe (allowlist : List String) (target : Target) : Type 0 where
    pub https : target.scheme ≡ "https"
    pub listed :
        any
          (λ allowed. not (clean net allowed == "") && clean net target.host == clean net allowed)
          allowlist
        ≡ true
    pub named : net.is_ip (clean net target.host) ≡ false
    pub foreign : net.is_localhost target.host ≡ false
    pub addresses : List Address
    pub resolved : net.lookup_ip target.host ≡ some addresses
    pub some_address : addresses ≡ [] → ⊥
    pub all_public : any is_private addresses ≡ false

  check_addresses-public :
      (found : Option (List Address)) (u : Unit)
      → check_addresses net found ≡ ok u
      → (addresses : List Address) × (found ≡ some addresses)
        × (addresses ≡ [] → ⊥)
        × (any is_private addresses ≡ false)
  check_addresses-public none u h = cc
  check_addresses-public (some []) u h = cc
  check_addresses-public (some (a ∷ more)) u h = (a ∷ more, refl, λ p. cc, ground arith)

  answered-ok :
      (status : Option ℕ) (u : Unit)
      → answered net status ≡ ok u
      → (n : ℕ) × (status ≡ some n) × (200 ≤ n) × (n < 300)
  answered-ok none u h = cc
  answered-ok (some n) u h = (n, refl, ground arith, ground arith)

  sent :
      (allowlist : List String) (row : Row) (found : Option Target) (u : Unit)
      → send_to net allowlist row found ≡ ok u
      → (target : Target) × (found ≡ some target)
        × IsSafe allowlist target
        × (n : ℕ) × (net.post target.text row ≡ some n)
        × (200 ≤ n)
        × (n < 300)
  unfolding webhook_allowed public_webhook_host
  sent allowlist row none u h = cc
  sent allowlist row (some target) u h =
      let s1 = passed (target.scheme == "" || target.host == "") _ _ h in
      let s2 = passed (not (target.scheme == "https")) _ _ s1.1 in
      let s3 = passed (not (webhook_allowed net target.host allowlist)) _ _ s2.1 in
      let s4 = >>=-eq-ok (public_webhook_host net target.host) _ s3.1 in
      let s5 = passed (net.is_localhost target.host) _ _ s4.1 in
      let checked = check_addresses-public (net.lookup_ip target.host) s4.0 s5.1 in
      let status = answered-ok (net.post target.text row) u s4.2 in
      (
        target,
        refl,
        record {
          https = ground (arith, s2.0);
          listed = ground (arith, s3.0);
          named = ground (arith, s3.0);
          foreign = s5.0;
          addresses = checked.0;
          resolved = checked.1;
          some_address = checked.2;
          all_public = checked.3;
        },
        status.0,
        status.1,
        status.2,
        status.3,
      )

  -- A webhook that counts as delivered was posted to an HTTPS target whose host is on the allow list
  -- and no IP address, resolves to one address at least, and to none that is loopback, private,
  -- link-local or unspecified; the answer was a 2xx.
  pub deliver_webhook-IsSafe :
      (allowlist : List String) (row : Row) (u : Unit)
      → deliver_webhook net allowlist row ≡ ok u
      → (target : Target) × (net.parse_url (trim_space row.recipient) ≡ some target)
        × IsSafe allowlist target
        × (n : ℕ) × (net.post target.text row ≡ some n)
        × (200 ≤ n)
        × (n < 300)
  unfolding deliver_webhook
  deliver_webhook-IsSafe allowlist row u h =
      sent allowlist row (net.parse_url (trim_space row.recipient)) u h
