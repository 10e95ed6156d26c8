-- ===== src/Entities/Metering.antt =====
-- The quota of records that Create and Delete of
-- backend/internal/service/dynamic_record_service.go keep with billing's Consume.
use nexa_flow.Prelude.{
  ℕ, suc, ◌-◌, ◌^◌, ◌<◌, ◌≡◌, refl, ◌∙◌, ap, inl, inr, String, Result, ok, err, ◌>>=◌, Result-cases,
  arith, Bool-cases, some, ◌==◌, string_eq, String_discrete,
}
use nexa_flow.Prelude.Int.{ℤ, pos, negsuc, ltb_ℤ}
use nexa_flow.Prelude.Maps.{lookup}
use nexa_flow.Values.{Dict}
use nexa_flow.Tenancy.{Context, billing_tenant}
use nexa_flow.Billing.Model.{Plan, Subscription, Tables, BillingOverview}
use nexa_flow.Billing.Store.{quantity, overview, plan_where}
use nexa_flow.Billing.Service.{limit_of}
use nexa_flow.Billing.Quota.{counter}
use nexa_flow.Billing.Units.{consume-back, overview-known}
use nexa_flow.Billing.Meter.{IsMeter, Held, call-Held, give_back}
use nexa_flow.Entities.Model.{WriteRecordInput, RecordView}
use nexa_flow.Entities.Records.{
  RecordError, Readers, RecordStore, validate_record_values, create_record, delete_record,
  or_refund, if_granted, release,
}

-- One unit more where the call answered a record, and as many as before where it did not.
abbrev pub counted {ℓ} : {A : Type ℓ} → Result RecordError A → ℕ → ℕ
counted (ok a) n = suc n
counted (err e) n = n

-- One unit less, but at least none, where the call succeeded, and as many as before where it did not.
abbrev pub released {ℓ} : {A : Type ℓ} → Result RecordError A → ℕ → ℕ
released (ok a) n = n - 1
released (err e) n = n

-- The store of the records with billing as its meter: the writes of records do not touch the tables
-- of billing.
pub record IsMetered {S : Type 0} (db : RecordStore S) (tables : S → Tables) (month : ℤ)
    (ctx : Context) : Type 0 where
  pub meter : IsMeter tables month ctx db.consume
  pub create : (s : S) (t e a : String) (v : Dict) → tables (db.create s t e a v).1 ≡ tables s
  pub delete : (s : S) (t e i : String) (v : ℤ) → tables (db.delete s t e i v).1 ≡ tables s

module _ (rd : Readers) {S : Type 0} (db : RecordStore S) (tables : S → Tables) (month : ℤ)
    (ctx : Context) (c : IsMetered db tables month ctx) (t : String) (n : ℕ)
    (own : billing_tenant ctx t ≡ ok t) where
  -- The count of the tenant's records in the month.
  abbrev pub records_of : S → ℤ
  records_of s = quantity (tables s) (counter t "records" month)

  or_refund-used :
      (u : Unit) (s : S) (r : Result RecordError RecordView × S)
      → Held tables month ctx db.consume c.meter t "records" n 1 (ok u, s)
      → tables r.1 ≡ tables s
      → records_of (or_refund rd db t r).1 ≡ pos (counted (or_refund rd db t r).0 n)
  or_refund-used u s (ok view, s2) h same =
      ap (λ x. quantity x (counter t "records" month)) same ∙ h.0 ∙ ap pos (omega arith)
  or_refund-used u s (err e, s2) h same =
      give_back tables month ctx db.consume c.meter t "records" n 1 u s s2 (negsuc 0) h same refl
        refl

  if_granted-used :
      (entity_id actor_id : String) (values : Dict) (p : Result RecordError Unit × S)
      → Held tables month ctx db.consume c.meter t "records" n 1 p
      → records_of
          (if_granted rd db p
            (λ s'. or_refund rd db t (db.create s' t entity_id actor_id values))).1
        ≡ pos (
            counted
              (if_granted rd db p
                (λ s'. or_refund rd db t (db.create s' t entity_id actor_id values))).0
              n)
  if_granted-used entity_id actor_id values (ok u, s) h =
      or_refund-used u s (db.create s t entity_id actor_id values) h
        (c.create s t entity_id actor_id values)
  if_granted-used entity_id actor_id values (err e, s) h = h

  -- In a month and for a tenant of the request's scope, with billing's Consume as the meter and fewer
  -- than 2^63 - 1 records counted, Create raises the tenant's count of the month by one when it answers
  -- a record, and leaves it as it was when it answers an error, be it of the schema, the values, the
  -- quota or the repository.
  pub create_record-used :
      (s : S) (entity_id actor_id : String) (input : WriteRecordInput)
      → suc n < 2 ^ 63
      → quantity (tables s) (counter t "records" month) ≡ pos n
      → quantity
          (tables (create_record rd db s t entity_id actor_id input).1)
          (counter t "records" month)
        ≡ pos (counted (create_record rd db s t entity_id actor_id input).0 n)
  unfolding create_record
  create_record-used s entity_id actor_id input small now =
      elim (Result-cases
        (db.get_schema s t entity_id >>= λ schema. validate_record_values rd schema input.values)) [
          | inl (values, good) ↦ rw good (
              if_granted-used entity_id actor_id values (db.consume s t "records" (pos 1)) (
                call-Held tables month ctx db.consume c.meter t "records" n 1 s own
                  (omega (arith, small)) now))
          | inr (e, bad) ↦ rw bad now
        ]

  release-used :
      (o : BillingOverview) (x x' : Tables) (r : Result RecordError Unit × S)
      → overview (c.meter.uuid r.1) month x t ≡ ok (o, x')
      → n < 2 ^ 63
      → quantity x (counter t "records" month) ≡ pos n
      → tables r.1 ≡ x
      → records_of (release rd db t r).1 ≡ pos (released (release rd db t r).0 n)
  unfolding limit_of String_discrete
  release-used o x x' (ok u, s) shown small now same =
      ap (λ y. quantity y (counter t "records" month))
        (c.meter.same_tables s t "records" (negsuc 0))
      ∙ rw same (
          consume-back (c.meter.uuid s) month ctx x t "records" n (negsuc 0) _ o x' own shown refl
            now small (omega arith) refl)
  release-used o x x' (err e, s) shown small now same =
      ap (λ y. quantity y (counter t "records" month)) same ∙ now

  -- In a month and for a tenant of the request's scope that has a subscription to a stored plan, with
  -- billing's Consume as the meter and fewer than 2^63 records counted, Delete lowers the tenant's count
  -- of the month by one when it succeeds, or leaves it at 0 when it was 0, and leaves it as it was when
  -- it answers an error.
  pub delete_record-used :
      (s : S) (entity_id record_id : String) (version : ℤ) (sub : Subscription) (plan : Plan)
      → lookup t (tables s).subscriptions ≡ some sub
      → plan_where (λ p. Plan.id p == sub.plan_id) (tables s) ≡ ok plan
      → n < 2 ^ 63
      → quantity (tables s) (counter t "records" month) ≡ pos n
      → quantity
          (tables (delete_record rd db s t entity_id record_id version).1)
          (counter t "records" month)
        ≡ pos (released (delete_record rd db s t entity_id record_id version).0 n)
  unfolding delete_record
  delete_record-used s entity_id record_id version sub plan subscribed known small now =
      elim (Bool-cases (ltb_ℤ version (pos 1))) [
        | inl low ↦ rw low now
        | inr high ↦ elim (Result-cases (db.get_schema s t entity_id)) [
          | inl (schema, found) ↦
              let r = db.delete s t entity_id record_id version in
              let shown =
                overview-known (c.meter.uuid r.1) month (tables s) t sub plan subscribed known in
              rw (high, found)
                (release-used shown.0 (tables s) (tables s) r shown.1 small now
                  (c.delete s t entity_id record_id version))
          | inr (e, missing) ↦ rw (high, missing) now
        ]
      ]
