-- ===== src/Knowledge/Metering.antt =====
-- The bytes of knowledge that Ingest of backend/internal/service/knowledge_service.go counts with
-- billing's Consume.
use nexa_flow.Prelude.{
  ℕ, ◌+◌, ◌^◌, ◌<◌, ◌≡◌, refl, ◌∙◌, ap, inl, inr, List, String, Result, ok, err, ◌>>=◌, Bool-cases,
  arith, ◌||◌,
}
use nexa_flow.Prelude.Int.{ℤ, pos, pos_part, neg_part, ltb_ℤ}
use nexa_flow.Strings.{trim_space}
use nexa_flow.Tenancy.{Context, billing_tenant}
use nexa_flow.Billing.Model.{Tables}
use nexa_flow.Billing.Store.{quantity}
use nexa_flow.Billing.Quota.{counter}
use nexa_flow.Billing.Meter.{IsMeter, Held, call-Held, give_back}
use nexa_flow.Knowledge.Service.{
  KnowledgeError, KnowledgeDocument, KnowledgeChunkInput, Parsers, Stores, neg_ℤ, bad_name,
  max_bytes, prepare, saved, or_give_back, granted, store_content, ingest_named, ingest,
}

-- More by a size where the call answered a document, and as many as before where it did not.
abbrev pub raised {ℓ} : {A : Type ℓ} → Result KnowledgeError A → ℕ → ℕ → ℕ
raised (ok a) size n = n + size
raised (err e) size n = n

-- The stores with billing as the meter: a save of a document does not touch the tables of billing.
pub record IsMetered {S V : Type 0} (stores : Stores S V) (tables : S → Tables) (month : ℤ)
    (ctx : Context) : Type 0 where
  pub meter : IsMeter tables month ctx stores.consume
  pub save :
      (s : S) (t a name type : String) (size : ℤ) (inputs : List (KnowledgeChunkInput V))
      → tables (stores.save s t a name type size inputs).1 ≡ tables s

neg_part-neg_ℤ : (n : ℕ) → (pos_part (neg_ℤ (pos n)) ≡ 0) × (neg_part (neg_ℤ (pos n)) ≡ n)
neg_part-neg_ℤ n = (ground arith, ground arith)

module _ {S V : Type 0} (parsers : Parsers) (stores : Stores S V) (tables : S → Tables) (month : ℤ)
    (ctx : Context) (c : IsMetered stores tables month ctx) (t : String) (n size : ℕ)
    (own : billing_tenant ctx t ≡ ok t) where
  abbrev Kept : Result KnowledgeError (Unit {0}) × S → Type 0
  Kept p = Held tables month ctx stores.consume c.meter t "knowledge_bytes" n size p

  -- The tenant's count of the month after a call is what its answer says.
  abbrev Right : Result KnowledgeError KnowledgeDocument × S → Type 0
  Right r = quantity (tables r.1) (counter t "knowledge_bytes" month) ≡ pos (raised r.0 size n)

  saved-tables :
      (s : S) (actor name type : String) (r : Result KnowledgeError (List (KnowledgeChunkInput V)))
      → tables (saved parsers stores s t actor name type (pos size) r).1 ≡ tables s
  saved-tables s actor name type (ok inputs) = c.save s t actor name type (pos size) inputs
  saved-tables s actor name type (err e) = refl

  or_give_back-used :
      (u : Unit) (s : S) (r : Result KnowledgeError KnowledgeDocument × S)
      → Kept (ok u, s)
      → tables r.1 ≡ tables s
      → Right (or_give_back parsers stores t (pos size) r)
  or_give_back-used u s (ok d, s2) h same =
      ap (λ x. quantity x (counter t "knowledge_bytes" month)) same ∙ h.0
  or_give_back-used u s (err e, s2) h same =
      give_back tables month ctx stores.consume c.meter t "knowledge_bytes" n size u s s2
        (neg_ℤ (pos size)) h same (neg_part-neg_ℤ size).0 (neg_part-neg_ℤ size).1

  granted-used :
      (actor name type : String) (content : Result KnowledgeError (List ℕ))
      (r : Result KnowledgeError (Unit {0}) × S)
      → Kept r
      → Right (
          granted parsers stores r (λ s.
            or_give_back parsers stores t
              (pos size)
              (store_content parsers stores s t actor name type (pos size) content)))
  granted-used actor name type content (ok u, s) h =
      or_give_back-used u s (store_content parsers stores s t actor name type (pos size) content) h
        (saved-tables s actor name type (content >>= prepare parsers stores s name))
  granted-used actor name type content (err e, s) h = h

  ingest_named-used :
      (s : S) (actor name type : String) (content : Result KnowledgeError (List ℕ))
      → n + size < 2 ^ 63
      → quantity (tables s) (counter t "knowledge_bytes" month) ≡ pos n
      → Right (ingest_named parsers stores s t actor name type (pos size) content)
  ingest_named-used s actor name type content small now = elim (Bool-cases (bad_name name)) [
    | inl bad ↦ rw bad now
    | inr good ↦ elim (Bool-cases (ltb_ℤ (pos size) (pos 1) || ltb_ℤ (pos max_bytes) (pos size))) [
      | inl bad ↦ rw (good, bad) now
      | inr fits ↦
          rw (good, fits)
            (granted-used actor name type content (stores.consume s t "knowledge_bytes" (pos size))
              (call-Held tables month ctx stores.consume c.meter t "knowledge_bytes" n size s own
                small now))
    ]
  ]

  -- In a month and for a tenant of the request's scope, with billing's Consume as the meter and a count
  -- that does not overflow, Ingest raises the tenant's count of bytes in the month by the document's
  -- size when it answers a document, and leaves it as it was when it answers an error, be it of the
  -- name, the size, the quota, the content, the embeddings or the repository.
  pub ingest-used :
      (s : S) (actor name type : String) (content : Result KnowledgeError (List ℕ))
      → n + size < 2 ^ 63
      → quantity (tables s) (counter t "knowledge_bytes" month) ≡ pos n
      → quantity
          (tables (ingest parsers stores s t actor name type (pos size) content).1)
          (counter t "knowledge_bytes" month)
        ≡ pos (raised (ingest parsers stores s t actor name type (pos size) content).0 size n)
  unfolding ingest
  ingest-used s actor name type content small now =
      ingest_named-used s actor (parsers.base (trim_space name)) type content small now
