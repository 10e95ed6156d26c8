-- ===== src/Knowledge/Windows.antt =====
-- The windows of the text that splitKnowledge of backend/internal/service/knowledge_service.go trims.
use nexa_flow.Prelude.{
  ℕ, zero, suc, ◌+◌, ◌-◌, ◌≤◌, ◌<◌, ◌≡◌, refl, ap, ◌∙◌, inl, inr, false, List, [], ◌∷◌, ◌++◌,
  Option, some, All, take, drop, length, leb, arith, Bool-cases, leb→le,
}
use mathlib.Core.List.{append-nil}
use nexa_flow.Knowledge.Splitting.{
  is_blank, skip_spaces, cons_unless_blank, cut_spaces, trim_runes, with_chunk, split_from,
  split_knowledge,
}

-- The trimmed windows that are not blank.
abbrev pub chunks_of : List (List ℕ) → List (List ℕ)
chunks_of [] = []
chunks_of (w ∷ ws) = with_chunk (trim_runes w) (chunks_of ws)

-- Windows that are to overlap, put together again.
abbrev pub rejoin : ℕ → List (List ℕ) → List ℕ
rejoin overlap [] = []
rejoin overlap (w ∷ ws) = w ++ drop overlap (rejoin overlap ws)

length-drop : (n : ℕ) (xs : List ℕ) → length (drop n xs) ≡ length xs - n
length-drop zero xs = omega arith
length-drop (suc n) [] = omega arith
length-drop (suc n) (x ∷ xs) = omega (arith, length-drop n xs)

length-take : (n : ℕ) (xs : List ℕ) → length (take n xs) ≤ n
length-take zero xs = omega arith
length-take (suc n) [] = omega arith
length-take (suc n) (x ∷ xs) = omega (arith, length-take n xs)

take-drop : (n : ℕ) (xs : List ℕ) → take n xs ++ drop n xs ≡ xs
take-drop zero xs = refl
take-drop (suc n) [] = refl
take-drop (suc n) (x ∷ xs) = ap (λ ys. x ∷ ys) (take-drop n xs)

drop-nil : (n : ℕ) → drop {A = ℕ} n [] ≡ []
drop-nil zero = refl
drop-nil (suc n) = refl

whole : {m k : ℕ} → 0 + m ≡ k → m ≡ k
whole e = omega arith

drop-drop : (m n k : ℕ) (xs : List ℕ) → n + m ≡ k → drop m (drop n xs) ≡ drop k xs
drop-drop m zero k xs e = ap (λ j. drop j xs) (whole e)
drop-drop m (suc n) zero xs e = absurd (omega arith)
drop-drop m (suc n) (suc k) [] e = drop-nil m
drop-drop m (suc n) (suc k) (x ∷ xs) e = drop-drop m n k xs (omega arith)

take-all : (n : ℕ) (xs : List ℕ) → length xs ≤ n → take n xs ≡ xs
take-all zero [] h = refl
take-all zero (x ∷ xs) h = absurd (omega arith)
take-all (suc n) [] h = refl
take-all (suc n) (x ∷ xs) h = ap (λ ys. x ∷ ys) (take-all n xs (omega arith))

length-skip_spaces : (xs : List ℕ) → length (skip_spaces xs) ≤ length xs
length-skip_spaces [] = omega arith
length-skip_spaces (x ∷ xs) = ground (arith, length-skip_spaces xs)

length-cons_unless_blank : (x : ℕ) (xs : List ℕ) → length (cons_unless_blank x xs) ≤ suc (length xs)
length-cons_unless_blank x [] = ground arith
length-cons_unless_blank x (y ∷ xs) = ground arith

length-cut_spaces : (xs : List ℕ) → length (cut_spaces xs) ≤ length xs
length-cut_spaces [] = omega arith
length-cut_spaces (x ∷ xs) =
    omega (arith, length-cons_unless_blank x (cut_spaces xs), length-cut_spaces xs)

length-trim_runes : (xs : List ℕ) → length (trim_runes xs) ≤ length xs
unfolding trim_runes
length-trim_runes xs = omega (arith, length-cut_spaces (skip_spaces xs), length-skip_spaces xs)

abbrev pub IsChunk : ℕ → List ℕ → Type 0
IsChunk size c = (is_blank c ≡ false) × (length c ≤ size)

with_chunk-IsChunk :
    (size : ℕ) (c : List ℕ) (cs : List (List ℕ))
    → length c ≤ size
    → All (IsChunk size) cs
    → All (IsChunk size) (with_chunk c cs)
with_chunk-IsChunk size [] cs h k = k
with_chunk-IsChunk size (x ∷ c) cs h k = ((refl, h), k)

chunks_of-IsChunk :
    (size : ℕ) (ws : List (List ℕ))
    → All (λ w. length w ≤ size) ws
    → All (IsChunk size) (chunks_of ws)
chunks_of-IsChunk size [] h = tt
chunks_of-IsChunk size (w ∷ ws) h =
    with_chunk-IsChunk size (trim_runes w) (chunks_of ws) (omega (arith, length-trim_runes w, h.0))
      (chunks_of-IsChunk size ws h.1)

-- What the split of a text is: the chunks of windows that make up the text.
abbrev pub Windows : ℕ → ℕ → List ℕ → Option (List (List ℕ)) → Type 0
Windows size overlap text answer =
    (ws : List (List ℕ)) × (answer ≡ some (chunks_of ws))
    × (rejoin overlap ws ≡ text)
    × All (λ w. length w ≤ size) ws

split_from-Windows :
    (fuel size overlap : ℕ) (runes : List ℕ)
    → overlap < size
    → length runes < fuel
    → Windows size overlap runes (split_from fuel size overlap runes)
unfolding split_from
split_from-Windows zero size overlap runes o f = absurd (omega arith)
split_from-Windows (suc fuel) size overlap [] o f = ([], refl, refl, tt)
split_from-Windows (suc fuel) size overlap (x ∷ xs) o f =
    elim (Bool-cases (leb (length (x ∷ xs)) size)) [
      | inl last ↦ (
        take size (x ∷ xs) ∷ [],
        rw last refl,
        rw (drop-nil overlap, append-nil (take size (x ∷ xs)))
            (take-all size (x ∷ xs) (leb→le (length (x ∷ xs)) size last)),
        (length-take size (x ∷ xs), tt),
      )
      | inr more ↦
          let later =
            split_from-Windows fuel size overlap (drop (size - overlap) (x ∷ xs)) o
              (omega (arith, length-drop (size - overlap) (x ∷ xs), f, o)) in
          (
            take size (x ∷ xs) ∷ later.0,
            rw (more, later.1) refl,
            ap (λ ys. take size (x ∷ xs) ++ drop overlap ys) later.2
                ∙ ap (λ ys. take size (x ∷ xs) ++ ys)
                    (drop-drop overlap (size - overlap) size (x ∷ xs) (omega (arith, o)))
                ∙ take-drop size (x ∷ xs),
            (length-take size (x ∷ xs), later.3),
          )
    ]

-- Where chunks overlap by less than their size, splitKnowledge comes to an end, and its chunks are the
-- trims, without the blank ones, of windows of at most that size whose overlapping union is the text;
-- so no chunk is blank or longer.
pub split_knowledge-Windows :
    (size overlap : ℕ) (text : List ℕ)
    → overlap < size
    → (chunks : List (List ℕ)) × (split_knowledge size overlap text ≡ some chunks)
      × All (IsChunk size) chunks
      × Windows size overlap text (some chunks)
unfolding split_knowledge
split_knowledge-Windows size overlap text o =
    let w = split_from-Windows (suc (length text)) size overlap text o (omega arith) in
    (chunks_of w.0, w.1, chunks_of-IsChunk size w.0 w.3, (w.0, refl, w.2, w.3))
