-- ===== src/Jobs/Redis.antt =====
-- The commands of Redis that the queue's scripts call, as an interface: what each does to the lists,
-- the sorted sets, the hashes and the texts under the keys. A text
-- expires, by the clock of the server. A command that fails is left out.
use nexa_flow.Prelude.{
  ℕ, ◌≡◌, Bool, List, [], ◌∷◌, ◌++◌, String, Option, none, some, ◌&&◌, ◌==◌, All, if◌then◌else◌,
  string_eq, Eq, ℕ_discrete, String_discrete,
}
use mathlib.Core.List.{tail}
use nexa_flow.Prelude.Int.{ℤ, ltb_ℤ}
use nexa_flow.Jobs.Model.{Key, Cell}

unfoldable pub Key_discrete : Discrete Key
Key_discrete = hlevel (ℕ_discrete, String_discrete)

instance abbrev pub key_eq : Eq Key
key_eq = record { dec = Key_discrete }

-- A member of a sorted set is due at a score.
abbrev pub is_due : ℤ → Option ℤ → Bool
is_due now none = Bool.false
is_due now (some score) = if ltb_ℤ now score then Bool.false else Bool.true

pub record Redis : Type 1 where
  pub Store : Type 0
  -- What is stored.
  pub list : Store → Key → List String
  pub score : Store → Key → String → Option ℤ
  pub hget : Store → Key → String → Option Cell
  -- GET at a time
  pub get : Store → ℤ → Key → Option String
  -- ZRANGEBYSCORE key -inf now LIMIT 0 count, and ZRANGE key 0 count-1
  pub due : Store → Key → ℤ → ℕ → List String
  pub members : Store → Key → ℕ → List String
  -- SET, until a time
  pub set : Key → String → ℤ → Store → Store
  pub hset : Key → String → Cell → Store → Store
  pub hdel : Key → String → Store → Store
  pub zadd : Key → ℤ → String → Store → Store
  pub zrem : Key → String → Store → Store
  pub rpush : Key → String → Store → Store
  pub lpop : Key → Store → Store
  pub due_all :
      (s : Store) (k : Key) (now : ℤ) (n : ℕ)
      → All (λ m. is_due now (score s k m) ≡ Bool.true) (due s k now n)
  pub list-set :
      (j : Key) (v : String) (until : ℤ) (s : Store) (k : Key) → list (set j v until s) k ≡ list s k
  pub score-set :
      (j : Key) (v : String) (until : ℤ) (s : Store) (k : Key) (i : String)
      → score (set j v until s) k i ≡ score s k i
  pub hget-set :
      (j : Key) (v : String) (until : ℤ) (s : Store) (k : Key) (i : String)
      → hget (set j v until s) k i ≡ hget s k i
  pub get-set :
      (j : Key) (v : String) (until : ℤ) (s : Store) (at : ℤ) (k : Key)
      → get (set j v until s) at k
        ≡ (if j == k then (if ltb_ℤ at until then some v else none) else get s at k)
  pub list-hset :
      (j : Key) (f : String) (v : Cell) (s : Store) (k : Key) → list (hset j f v s) k ≡ list s k
  pub score-hset :
      (j : Key) (f : String) (v : Cell) (s : Store) (k : Key) (i : String)
      → score (hset j f v s) k i ≡ score s k i
  pub hget-hset :
      (j : Key) (f : String) (v : Cell) (s : Store) (k : Key) (i : String)
      → hget (hset j f v s) k i ≡ (if j == k && f == i then some v else hget s k i)
  pub get-hset :
      (j : Key) (f : String) (v : Cell) (s : Store) (at : ℤ) (k : Key)
      → get (hset j f v s) at k ≡ get s at k
  pub list-hdel : (j : Key) (f : String) (s : Store) (k : Key) → list (hdel j f s) k ≡ list s k
  pub score-hdel :
      (j : Key) (f : String) (s : Store) (k : Key) (i : String)
      → score (hdel j f s) k i ≡ score s k i
  pub hget-hdel :
      (j : Key) (f : String) (s : Store) (k : Key) (i : String)
      → hget (hdel j f s) k i ≡ (if j == k && f == i then none else hget s k i)
  pub get-hdel :
      (j : Key) (f : String) (s : Store) (at : ℤ) (k : Key) → get (hdel j f s) at k ≡ get s at k
  pub list-zadd :
      (j : Key) (z : ℤ) (m : String) (s : Store) (k : Key) → list (zadd j z m s) k ≡ list s k
  pub score-zadd :
      (j : Key) (z : ℤ) (m : String) (s : Store) (k : Key) (i : String)
      → score (zadd j z m s) k i ≡ (if j == k && m == i then some z else score s k i)
  pub hget-zadd :
      (j : Key) (z : ℤ) (m : String) (s : Store) (k : Key) (i : String)
      → hget (zadd j z m s) k i ≡ hget s k i
  pub get-zadd :
      (j : Key) (z : ℤ) (m : String) (s : Store) (at : ℤ) (k : Key)
      → get (zadd j z m s) at k ≡ get s at k
  pub list-zrem : (j : Key) (m : String) (s : Store) (k : Key) → list (zrem j m s) k ≡ list s k
  pub score-zrem :
      (j : Key) (m : String) (s : Store) (k : Key) (i : String)
      → score (zrem j m s) k i ≡ (if j == k && m == i then none else score s k i)
  pub hget-zrem :
      (j : Key) (m : String) (s : Store) (k : Key) (i : String) → hget (zrem j m s) k i ≡ hget s k i
  pub get-zrem :
      (j : Key) (m : String) (s : Store) (at : ℤ) (k : Key) → get (zrem j m s) at k ≡ get s at k
  pub list-rpush :
      (j : Key) (m : String) (s : Store) (k : Key)
      → list (rpush j m s) k ≡ (if j == k then list s k ++ m ∷ [] else list s k)
  pub score-rpush :
      (j : Key) (m : String) (s : Store) (k : Key) (i : String)
      → score (rpush j m s) k i ≡ score s k i
  pub hget-rpush :
      (j : Key) (m : String) (s : Store) (k : Key) (i : String)
      → hget (rpush j m s) k i ≡ hget s k i
  pub get-rpush :
      (j : Key) (m : String) (s : Store) (at : ℤ) (k : Key) → get (rpush j m s) at k ≡ get s at k
  pub list-lpop :
      (j : Key) (s : Store) (k : Key)
      → list (lpop j s) k ≡ (if j == k then tail (list s k) else list s k)
  pub score-lpop : (j : Key) (s : Store) (k : Key) (i : String) → score (lpop j s) k i ≡ score s k i
  pub hget-lpop : (j : Key) (s : Store) (k : Key) (i : String) → hget (lpop j s) k i ≡ hget s k i
  pub get-lpop : (j : Key) (s : Store) (at : ℤ) (k : Key) → get (lpop j s) at k ≡ get s at k
