-- ===== src/Billing/Meter.antt =====
-- The services' UsageMeter, which is a Go interface there, as billing's Consume
-- (backend/internal/service/billing_service.go).
use nexa_flow.Prelude.{ℕ, ◌+◌, ◌^◌, ◌<◌, ◌≡◌, ◌∙◌, ap, Bool, true, false, String, Result, ok, err}
use nexa_flow.Prelude.Int.{ℤ, pos, pos_part, neg_part}
use nexa_flow.Tenancy.{Context, billing_tenant}
use nexa_flow.Billing.Model.{Tables}
use nexa_flow.Billing.Store.{BillingError, quantity}
use nexa_flow.Billing.Service.{consume}
use nexa_flow.Billing.Quota.{counter}
use nexa_flow.Billing.Units.{Taken, consume-Taken}

abbrev pub is_ok {ℓ κ} : {E : Type ℓ} {A : Type κ} → Result E A → Bool
is_ok (ok a) = true
is_ok (err e) = false

-- A call does to the tables of billing what Consume does, in a month and the scope of a request, and
-- succeeds when Consume does.
pub record IsMeter {S E : Type 0} (tables : S → Tables) (month : ℤ) (ctx : Context)
    (call : S → String → String → ℤ → Result E (Unit {0}) × S) : Type 0 where
  pub uuid : S → String
  pub same_tables :
      (s : S) (t m : String) (q : ℤ)
      → tables (call s t m q).1 ≡ (consume (uuid s) month ctx (tables s) t m q).1
  pub same_answer :
      (s : S) (t m : String) (q : ℤ)
      → is_ok (call s t m q).0 ≡ is_ok (consume (uuid s) month ctx (tables s) t m q).0

module _ {S E : Type 0} (tables : S → Tables) (month : ℤ) (ctx : Context)
    (call : S → String → String → ℤ → Result E (Unit {0}) × S)
    (meter : IsMeter tables month ctx call) (t m : String) (n k : ℕ) where
  -- What a call has taken is counted, and giving it back restores the count.
  abbrev pub Held : Result E (Unit {0}) × S → Type 0
  Held (ok u, s) =
      (quantity (tables s) (counter t m month) ≡ pos (n + k))
      × ((uuid : String) (q : ℤ)
          → pos_part q ≡ 0
          → neg_part q ≡ k
          → quantity (consume uuid month ctx (tables s) t m q).1 (counter t m month) ≡ pos n)
  Held (err e, s) = quantity (tables s) (counter t m month) ≡ pos n

  Taken-Held :
      (p : Result E (Unit {0}) × S) (r : Result BillingError (Unit {0}) × Tables)
      → tables p.1 ≡ r.1
      → is_ok p.0 ≡ is_ok r.0
      → Taken month ctx t m n k r
      → Held p
  Taken-Held (ok u, s) (ok v, x) e a h = rw e h
  Taken-Held (err u, s) (err v, x) e a h = rw e h
  Taken-Held (ok u, s) (err v, x) e a h = cc
  Taken-Held (err u, s) (ok v, x) e a h = cc

  pub call-Held :
      (s : S)
      → billing_tenant ctx t ≡ ok t
      → n + k < 2 ^ 63
      → quantity (tables s) (counter t m month) ≡ pos n
      → Held (call s t m (pos k))
  call-Held s own small now =
      Taken-Held (call s t m (pos k)) (consume (meter.uuid s) month ctx (tables s) t m (pos k))
        (meter.same_tables s t m (pos k)) (meter.same_answer s t m (pos k))
        (consume-Taken month ctx t m n k own small (meter.uuid s) (tables s) now)

  pub give_back :
      (u : Unit) (s s2 : S) (q : ℤ)
      → Held (ok u, s)
      → tables s2 ≡ tables s
      → pos_part q ≡ 0
      → neg_part q ≡ k
      → quantity (tables (call s2 t m q).1) (counter t m month) ≡ pos n
  give_back u s s2 q h same less size =
      ap (λ x. quantity x (counter t m month)) (meter.same_tables s2 t m q)
      ∙ ap (λ x. quantity (consume (meter.uuid s2) month ctx x t m q).1 (counter t m month)) same
      ∙ h.1 (meter.uuid s2) q less size
