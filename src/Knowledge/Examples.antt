-- ===== src/Knowledge/Examples.antt =====
-- Splits and an ingestion, with billing as the meter.
use nexa_flow.Prelude.{
  ℕ, zero, suc, ◌≡◌, refl, List, [], ◌∷◌, some, ok, err, All, arith, String_discrete, ℕ_discrete,
}
use nexa_flow.Prelude.Int.{pos, ℤ_discrete}
use nexa_flow.Tenancy.{billing_tenant}
use nexa_flow.Billing.Model.{Tables}
use nexa_flow.Billing.Store.{CounterKey_discrete, quantity}
use nexa_flow.Billing.Service.{consume}
use nexa_flow.Billing.Samples.{in_use, member, charge, charge-IsMeter}
use nexa_flow.Strings.{trim_space, is_space}
use nexa_flow.Knowledge.Splitting.{normalize_text, split_knowledge}
use nexa_flow.Knowledge.Windows.{IsChunk, Windows, split_knowledge-Windows}
use nexa_flow.Knowledge.Service.{Parsers, Stores, text_too_short, other, ingest}
use nexa_flow.Knowledge.Metering.{IsMetered, raised, ingest-used}

squeezed : normalize_text (32 ∷ 97 ∷ 10 ∷ 13 ∷ 98 ∷ 9 ∷ []) ≡ 97 ∷ 32 ∷ 98 ∷ []
unfolding normalize_text is_space ℕ_discrete
squeezed = refl

overlapping :
    split_knowledge 3 1 (97 ∷ 98 ∷ 32 ∷ 99 ∷ 100 ∷ 101 ∷ [])
    ≡ some ((97 ∷ 98 ∷ []) ∷ (99 ∷ 100 ∷ []) ∷ (100 ∷ 101 ∷ []) ∷ [])
unfolding split_knowledge is_space ℕ_discrete
overlapping = refl

split_knowledge-Windows_example :
    (chunks : List (List ℕ)) × (split_knowledge 3 1 (97 ∷ 98 ∷ 32 ∷ 99 ∷ []) ≡ some chunks)
    × All (IsChunk 3) chunks
    × Windows 3 1 (97 ∷ 98 ∷ 32 ∷ 99 ∷ []) (some chunks)
split_knowledge-Windows_example = split_knowledge-Windows 3 1 (97 ∷ 98 ∷ 32 ∷ 99 ∷ []) (omega arith)

abbrev plain : Parsers
plain = record {
  base = λ s. s;
  lower_ext = λ s. ".txt";
  decode = λ bytes. some bytes;
  pdf_text = λ bytes. err (other "pdf");
  office_text = λ ext bytes. err (other "office");
}

-- Stores that keep no documents, with billing as the meter.
abbrev metered : Stores Tables ℕ
metered = record {
  save = λ s t a name type size inputs. (ok (record { id = "d"; name = name; size = size }), s);
  delete = λ s t id. (ok (pos 1), s);
  embed = λ s chunks. ok chunks;
  consume = charge (λ e. other "quota exceeded");
}

abbrev metered_by_billing : IsMetered metered (λ s. s) (pos 7) (some member)
metered_by_billing = record {
  meter = charge-IsMeter (λ e. other "quota exceeded");
  save = λ s t a name type size inputs. refl;
}

abbrev letters : ℕ → List ℕ
letters zero = []
letters (suc n) = 97 ∷ letters n

-- The tenant's bytes after an ingestion of a text of thirty letters, or of five.
stored :
    quantity
      (ingest plain metered in_use "t1" "u" "a.txt" "text/plain" (pos 30) (ok (letters 30))).1
      ("t1", "knowledge_bytes", pos 7)
    ≡ pos 40
unfolding ingest consume billing_tenant quantity trim_space CounterKey_discrete ℤ_discrete
    String_discrete ℕ_discrete
stored = refl

short_refused :
    (ingest plain metered in_use "t1" "u" "a.txt" "text/plain" (pos 30) (ok (letters 5))).0
    ≡ err text_too_short
unfolding ingest consume billing_tenant quantity trim_space CounterKey_discrete ℤ_discrete
    String_discrete ℕ_discrete
short_refused = refl

ingest-used_example :
    quantity
      (ingest plain metered in_use "t1" "u" "a.txt" "text/plain" (pos 30) (ok (letters 30))).1
      ("t1", "knowledge_bytes", pos 7)
    ≡ pos (
        raised
          (ingest plain metered in_use "t1" "u" "a.txt" "text/plain" (pos 30) (ok (letters 30))).0
          30
          10)
unfolding billing_tenant quantity CounterKey_discrete ℤ_discrete String_discrete ℕ_discrete
ingest-used_example =
    ingest-used plain metered (λ s. s) (pos 7) (some member) metered_by_billing "t1" 10 30 refl
      in_use "u" "a.txt" "text/plain" (ok (letters 30)) (omega arith) refl
