-- ===== src/Knowledge/Service.antt =====
-- Ingest, Delete and Search of backend/internal/service/knowledge_service.go. The repository, the
-- provider of embeddings and the meter are Go interfaces there, and records here; a state `S` stands
-- for what they store. A document's bytes are a list; the readers of PDF and Office files, the decoding
-- of UTF-8, filepath's Base and Ext and strings.ToLower are functions. A vector is a list.
use nexa_flow.Prelude.{
  ℕ, suc, Bool, not, ◌||◌, List, [], ◌∷◌, Option, none, some, String, Result, ok, err, ◌>>=◌, ◌==◌,
  if◌then◌else◌, string_eq, nat_eq, ltb, length, contains,
}
use Prim.Native.String.{len}
use nexa_flow.Prelude.Int.{ℤ, pos, ◌-ℤ◌, ltb_ℤ}
use nexa_flow.Strings.{trim_space}
use nexa_flow.Knowledge.Splitting.{normalize_text, split_knowledge}

-- ErrInvalidKnowledgeDocument by its causes, and the errors of the others.
pub data KnowledgeError : Type 0 where
  invalid_file_name : KnowledgeError
  invalid_size : KnowledgeError
  invalid_content : KnowledgeError
  not_utf8 : KnowledgeError
  unsupported_file : KnowledgeError
  text_too_short : KnowledgeError
  unusable_chunks : KnowledgeError
  incomplete_embeddings : KnowledgeError
  empty_vector : KnowledgeError
  query_required : KnowledgeError
  other : String → KnowledgeError

pub record KnowledgeChunkInput (V : Type 0) : Type 0 where
  pub position : ℕ
  pub content : List ℕ
  pub embedding : List V

pub record KnowledgeDocument : Type 0 where
  pub id : String
  pub name : String
  pub size : ℤ

-- The functions of other packages.
pub record Parsers : Type 0 where
  pub base : String → String
  pub lower_ext : String → String
  pub decode : List ℕ → Option (List ℕ)
  pub pdf_text : List ℕ → Result KnowledgeError (List ℕ)
  pub office_text : String → List ℕ → Result KnowledgeError (List ℕ)

-- KnowledgeRepository, AIProvider's Embed and UsageMeter's Consume.
pub record Stores (S V : Type 0) : Type 0 where
  pub save :
      S
      → String
      → String
      → String
      → String
      → ℤ
      → List (KnowledgeChunkInput V)
      → Result KnowledgeError KnowledgeDocument × S
  pub delete : S → String → String → Result KnowledgeError ℤ × S
  pub embed : S → List (List ℕ) → Result KnowledgeError (List (List V))
  pub consume : S → String → String → ℤ → Result KnowledgeError (Unit {0}) × S

abbrev pub neg_ℤ : ℤ → ℤ
neg_ℤ n = pos 0 -ℤ n

-- extractKnowledgeText before normalizeText
unfoldable pub raw_text : Parsers → String → List ℕ → Result KnowledgeError (List ℕ)
raw_text parsers ext bytes =
    if contains (".txt" ∷ ".md" ∷ ".csv" ∷ ".json" ∷ []) ext
    then elim (parsers.decode bytes) [ none ↦ err not_utf8 | some text ↦ ok text ]
    else if ext == ".pdf"
    then parsers.pdf_text bytes
    else if contains (".docx" ∷ ".xlsx" ∷ []) ext
    then parsers.office_text ext bytes
    else err unsupported_file

abbrev pub long_enough : List ℕ → Result KnowledgeError (List ℕ)
long_enough text = if ltb (length text) 20 then err text_too_short else ok text

-- extractKnowledgeText
unfoldable pub extract_knowledge_text : Parsers → String → List ℕ → Result KnowledgeError (List ℕ)
unfolding raw_text normalize_text
extract_knowledge_text parsers name bytes =
    raw_text parsers (parsers.lower_ext name) bytes >>= λ text. long_enough (normalize_text text)

abbrev pub bad_name : String → Bool
bad_name name = name == "." || name == "" || ltb 255 (len name)

-- 20 << 20
abbrev pub max_bytes : ℕ
max_bytes = 20971520

abbrev pub bad_content : List ℕ → Bool
bad_content bytes = length bytes == 0 || ltb max_bytes (length bytes)

-- A split that runs out of fuel has no chunks; it does not, since the overlap is less than the size.
abbrev pub chunks_or_none : Option (List (List ℕ)) → List (List ℕ)
chunks_or_none none = []
chunks_or_none (some chunks) = chunks

module _ {V : Type 0} where
  -- The loop that pairs chunks with their vectors, from a position on.
  unfoldable pub inputs_from :
      ℕ → List (List ℕ) → List (List V) → Result KnowledgeError (List (KnowledgeChunkInput V))
  inputs_from position [] embeddings = ok []
  inputs_from position (chunk ∷ chunks) [] = err incomplete_embeddings
  inputs_from position (chunk ∷ chunks) (vector ∷ vectors) =
      let rest = inputs_from (suc position) chunks vectors in
      if length vector == 0
      then err empty_vector
      else (rest >>= λ inputs.
          ok (record { position = position; content = chunk; embedding = vector } ∷ inputs))

  abbrev pub paired :
      List (List ℕ) → List (List V) → Result KnowledgeError (List (KnowledgeChunkInput V))
  paired chunks embeddings =
      if not (length embeddings == length chunks)
      then err incomplete_embeddings
      else inputs_from 0 chunks embeddings

module _ {S V : Type 0} (parsers : Parsers) (stores : Stores S V) where
  abbrev pub embedded : S → List (List ℕ) → Result KnowledgeError (List (KnowledgeChunkInput V))
  embedded s chunks =
      if length chunks == 0 || ltb 1000 (length chunks)
      then err unusable_chunks
      else (stores.embed s chunks >>= paired chunks)

  -- What Ingest saves of the content that it has read.
  unfoldable pub prepare :
      S → String → List ℕ → Result KnowledgeError (List (KnowledgeChunkInput V))
  unfolding extract_knowledge_text split_knowledge inputs_from
  prepare s name bytes =
      if bad_content bytes
      then err invalid_content
      else (extract_knowledge_text parsers name bytes >>= λ text.
          embedded s (chunks_or_none (split_knowledge 1200 180 text)))

  -- The deferred refund, which ignores the meter's answer.
  abbrev pub or_give_back :
      String
      → ℤ
      → Result KnowledgeError KnowledgeDocument × S
      → Result KnowledgeError KnowledgeDocument × S
  or_give_back tenant_id size (ok document, s) = (ok document, s)
  or_give_back tenant_id size (err e, s) =
      (err e, (stores.consume s tenant_id "knowledge_bytes" (neg_ℤ size)).1)

  abbrev pub saved :
      S
      → String
      → String
      → String
      → String
      → ℤ
      → Result KnowledgeError (List (KnowledgeChunkInput V))
      → Result KnowledgeError KnowledgeDocument × S
  saved s tenant_id actor_id name content_type size (err e) = (err e, s)
  saved s tenant_id actor_id name content_type size (ok inputs) =
      stores.save s tenant_id actor_id name content_type size inputs

  abbrev pub granted :
      Result KnowledgeError (Unit {0}) × S
      → (S → Result KnowledgeError KnowledgeDocument × S)
      → Result KnowledgeError KnowledgeDocument × S
  granted (err e, s) next = (err e, s)
  granted (ok u, s) next = next s

  -- The part of Ingest that the refund covers.
  abbrev pub store_content :
      S
      → String
      → String
      → String
      → String
      → ℤ
      → Result KnowledgeError (List ℕ)
      → Result KnowledgeError KnowledgeDocument × S
  store_content s tenant_id actor_id name content_type size content =
      saved s tenant_id actor_id name content_type size (content >>= prepare s name)

  -- Ingest with a meter, after the name's Base
  abbrev pub ingest_named :
      S
      → String
      → String
      → String
      → String
      → ℤ
      → Result KnowledgeError (List ℕ)
      → Result KnowledgeError KnowledgeDocument × S
  ingest_named s tenant_id actor_id name content_type size content =
      if bad_name name
      then (err invalid_file_name, s)
      else if ltb_ℤ size (pos 1) || ltb_ℤ (pos max_bytes) size
      then (err invalid_size, s)
      else granted (stores.consume s tenant_id "knowledge_bytes" size) (λ s'.
        or_give_back tenant_id size
          (store_content s' tenant_id actor_id name content_type size content))

  -- Ingest with a meter; `content` is what io.ReadAll answers for the reader
  unfoldable pub ingest :
      S
      → String
      → String
      → String
      → String
      → ℤ
      → Result KnowledgeError (List ℕ)
      → Result KnowledgeError KnowledgeDocument × S
  unfolding prepare
  ingest s tenant_id actor_id name content_type size content =
      ingest_named s tenant_id actor_id (parsers.base (trim_space name)) content_type size content

  abbrev pub returned : String → Result KnowledgeError ℤ × S → Result KnowledgeError (Unit {0}) × S
  returned tenant_id (err e, s) = (err e, s)
  returned tenant_id (ok size, s) = stores.consume s tenant_id "knowledge_bytes" (neg_ℤ size)

  -- Delete with a meter
  unfoldable pub delete_document : S → String → String → Result KnowledgeError (Unit {0}) × S
  delete_document s tenant_id id = returned tenant_id (stores.delete s tenant_id id)
