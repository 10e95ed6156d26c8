-- ===== src/Jobs/Claims.antt =====
-- The order in which jobs are claimed.
use nexa_flow.Prelude.{
  ◌≡◌, refl, ap, ◌≢◌, ◌⊎◌, List, [], ◌∷◌, ◌++◌, String, some, All, arith, string_eq,
}
use mathlib.Core.List.{tail}
use nexa_flow.Prelude.Int.{ℤ}
use nexa_flow.Jobs.Model.{Key, processing}
use nexa_flow.Jobs.Redis.{Redis, key_eq}
use nexa_flow.Jobs.Scripts.{pop_or, claim_script}

module _ (r : Redis) where
  open r use {Store, list, score, zadd, lpop}

  -- The head of the first list that is not empty, moved to the processing set under its lease.
  pub record Claims (keys : List Key) (lease : ℤ) (s : Store) (id : String) (s' : Store)
      : Type 0 where
    pub before : List Key
    pub key : Key
    pub after : List Key
    pub rest : List String
    pub split : keys ≡ before ++ key ∷ after
    pub drained : All (λ k. list s k ≡ []) before
    pub first : list s key ≡ id ∷ rest
    pub popped : list s' key ≡ rest
    pub others : (k : Key) → k ≢ key → list s' k ≡ list s k
    pub leased : score s' processing id ≡ some lease
    pub scores : (k : Key) (m : String) → (k ≢ processing) ⊎ (m ≢ id) → score s' k m ≡ score s k m

  pop-Claims :
      (key : Key) (keys : List Key) (lease : ℤ) (s : Store) (x : String) (xs : List String)
      → list s key ≡ x ∷ xs
      → Claims (key ∷ keys) lease s x (zadd processing lease x (lpop key s))
  pop-Claims key keys lease s x xs e = record {
    before = [];
    key = key;
    after = keys;
    rest = xs;
    split = refl;
    drained = tt;
    first = e;
    popped =
        ground (
          arith,
          r.list-zadd processing lease x (lpop key s) key,
          r.list-lpop key s key,
          ap tail e,
        );
    others =
        λ k ne. ground (arith, r.list-zadd processing lease x (lpop key s) k, r.list-lpop key s k);
    leased = ground (arith, r.score-zadd processing lease x (lpop key s) processing x);
    scores = λ k m ne.
        ground (arith, r.score-zadd processing lease x (lpop key s) k m, r.score-lpop key s k m);
  }

  cons-Claims :
      (key : Key) (keys : List Key) (lease : ℤ) (s : Store) (xs : List String) {id : String}
      {s' : Store}
      → list s key ≡ xs
      → (claim_script r keys lease s ≡ some (id, s') → Claims keys lease s id s')
      → pop_or r xs key lease s (claim_script r keys lease s) ≡ some (id, s')
      → Claims (key ∷ keys) lease s id s'
  cons-Claims key keys lease s [] e rest h =
      let c = rest h in
      record {
        before = key ∷ c.before;
        key = c.key;
        after = c.after;
        rest = c.rest;
        split = ap (◌∷◌ key) c.split;
        drained = (e, c.drained);
        first = c.first;
        popped = c.popped;
        others = c.others;
        leased = c.leased;
        scores = c.scores;
      }
  cons-Claims key keys lease s (x ∷ xs) {id} {s'} e rest h =
      let p : x ≡ id = cc in
      let q : zadd processing lease x (lpop key s) ≡ s' = cc in
      rw (← p, ← q) (pop-Claims key keys lease s x xs e)

  -- A claim takes the oldest job of the first list, in the order of the keys, that is not empty: it
  -- leaves the other lists as they are, and holds the job in the processing set under the lease.
  pub claim_script-Claims :
      (keys : List Key) (lease : ℤ) (s : Store) {id : String} {s' : Store}
      → claim_script r keys lease s ≡ some (id, s')
      → Claims keys lease s id s'
  unfolding claim_script
  claim_script-Claims [] lease s h = cc
  claim_script-Claims (key ∷ keys) lease s h =
      cons-Claims key keys lease s (list s key) refl (claim_script-Claims keys lease s) h
