-- ===== src/Jobs/Moves.antt =====
-- Where a job stands once its handler has returned.
use nexa_flow.Prelude.{
  ℕ, suc, ◌+◌, ◌≤◌, ◌<◌, ◌≡◌, refl, ◌∙◌, ◌≢◌, ◌⊎◌, inl, inr, true, false, List, String, none, some,
  Bool-cases, arith, string_eq,
}
use nexa_flow.Prelude.Int.{ℤ, pos, ◌+ℤ◌}
use nexa_flow.Prelude.Maps.{lookup}
use nexa_flow.Jobs.Model.{
  Job, JobsConfig, Key, Cell, jobs, priorities, delayed, processing, dlq, milli,
}
use nexa_flow.Jobs.Redis.{Redis, key_eq}
use nexa_flow.Jobs.Scripts.{ack_script}
use nexa_flow.Jobs.Queue.{Handler, backoff, run_handler, handle}
use nexa_flow.Jobs.Retry.{failed-verdict}

module _ (r : Redis) where
  open r use {Store, list, score, hget, get, hset, hdel, zadd, zrem}

  -- One script has moved a job out of the processing set, and touched no other.
  pub record Released (id : String) (s s' : Store) : Type 0 where
    pub released : score s' processing id ≡ none
    pub lists : (k : Key) → list s' k ≡ list s k
    pub texts : (at : ℤ) (k : Key) → get s' at k ≡ get s at k
    pub scores : (k : Key) (m : String) → m ≢ id → score s' k m ≡ score s k m
    pub cells : (k : Key) (m : String) → m ≢ id → hget s' k m ≡ hget s k m

  ack-Released : (j : Job) (s : Store) → Released j.id s (ack_script r j.id s)
  unfolding ack_script
  ack-Released j s =
      let s1 = zrem processing j.id s in
      let s2 = hdel jobs j.id s1 in
      record {
        released = ground (
          arith,
          r.score-hdel priorities j.id s2 processing j.id,
          r.score-hdel jobs j.id s1 processing j.id,
          r.score-zrem processing j.id s processing j.id,
        );
        lists = λ k. ground (
          arith,
          r.list-hdel priorities j.id s2 k,
          r.list-hdel jobs j.id s1 k,
          r.list-zrem processing j.id s k,
        );
        texts = λ at k.
            r.get-hdel priorities j.id s2 at k
            ∙ r.get-hdel jobs j.id s1 at k
            ∙ r.get-zrem processing j.id s at k;
        scores = λ k m ne. ground (
          arith,
          r.score-hdel priorities j.id s2 k m,
          r.score-hdel jobs j.id s1 k m,
          r.score-zrem processing j.id s k m,
        );
        cells = λ k m ne. ground (
          arith,
          r.hget-hdel priorities j.id s2 k m,
          r.hget-hdel jobs j.id s1 k m,
          r.hget-zrem processing j.id s k m,
        );
      }

  -- Both retryScript and deadScript move the job to a sorted set, with its new encoding.
  abbrev move : Key → Job → ℤ → Store → Store
  move to j at s = zadd to at j.id (hset jobs j.id (Cell.job j) (zrem processing j.id s))

  move-Released :
      (to : Key) (j : Job) (at : ℤ) (s : Store) → to ≢ processing → Released j.id s (move to j at s)
  move-Released to j at s ne =
      let s1 = zrem processing j.id s in
      let s2 = hset jobs j.id (Cell.job j) s1 in
      record {
        released = ground (
          arith,
          r.score-zadd to at j.id s2 processing j.id,
          r.score-hset jobs j.id (Cell.job j) s1 processing j.id,
          r.score-zrem processing j.id s processing j.id,
        );
        lists = λ k. ground (
          arith,
          r.list-zadd to at j.id s2 k,
          r.list-hset jobs j.id (Cell.job j) s1 k,
          r.list-zrem processing j.id s k,
        );
        texts = λ clock k.
            r.get-zadd to at j.id s2 clock k
            ∙ r.get-hset jobs j.id (Cell.job j) s1 clock k
            ∙ r.get-zrem processing j.id s clock k;
        scores = λ k m nm. ground (
          arith,
          r.score-zadd to at j.id s2 k m,
          r.score-hset jobs j.id (Cell.job j) s1 k m,
          r.score-zrem processing j.id s k m,
        );
        cells = λ k m nm. ground (
          arith,
          r.hget-zadd to at j.id s2 k m,
          r.hget-hset jobs j.id (Cell.job j) s1 k m,
          r.hget-zrem processing j.id s k m,
        );
      }

  move-arrives :
      (to : Key) (j : Job) (at : ℤ) (s : Store)
      → (score (move to j at s) to j.id ≡ some at)
        × (hget (move to j at s) jobs j.id ≡ some (Cell.job j))
  move-arrives to j at s =
      let s1 = zrem processing j.id s in
      let s2 = hset jobs j.id (Cell.job j) s1 in
      (
        ground (arith, r.score-zadd to at j.id s2 to j.id),
        ground (
          arith,
          r.hget-zadd to at j.id s2 jobs j.id,
          r.hget-hset jobs j.id (Cell.job j) s1 jobs j.id,
        ),
      )

  -- The scores of a job in the other sets than two, and its cells in the other hashes than two.
  abbrev pub Elsewhere : String → Key → Key → Key → Key → Store → Store → Type 0
  Elsewhere id set set' hash hash' s s' =
      ((k : Key) → k ≢ set → k ≢ set' → score s' k id ≡ score s k id)
      × ((k : Key) → k ≢ hash → k ≢ hash' → hget s' k id ≡ hget s k id)

  ack-Elsewhere :
      (j : Job) (s : Store)
      → Elsewhere j.id processing processing jobs priorities s (ack_script r j.id s)
  unfolding ack_script
  ack-Elsewhere j s =
      let s1 = zrem processing j.id s in
      let s2 = hdel jobs j.id s1 in
      (
        λ k a b. ground (
          arith,
          r.score-hdel priorities j.id s2 k j.id,
          r.score-hdel jobs j.id s1 k j.id,
          r.score-zrem processing j.id s k j.id,
        ),
        λ k a b. ground (
          arith,
          r.hget-hdel priorities j.id s2 k j.id,
          r.hget-hdel jobs j.id s1 k j.id,
          r.hget-zrem processing j.id s k j.id,
        ),
      )

  move-Elsewhere :
      (to : Key) (j : Job) (at : ℤ) (s : Store)
      → Elsewhere j.id processing to jobs jobs s (move to j at s)
  move-Elsewhere to j at s =
      let s1 = zrem processing j.id s in
      let s2 = hset jobs j.id (Cell.job j) s1 in
      (
        λ k a b. ground (
          arith,
          r.score-zadd to at j.id s2 k j.id,
          r.score-hset jobs j.id (Cell.job j) s1 k j.id,
          r.score-zrem processing j.id s k j.id,
        ),
        λ k a b. ground (
          arith,
          r.hget-zadd to at j.id s2 k j.id,
          r.hget-hset jobs j.id (Cell.job j) s1 k j.id,
          r.hget-zrem processing j.id s k j.id,
        ),
      )

  abbrev again : Job → Job
  again j = record j { attempt = suc j.attempt }

  abbrev later : JobsConfig → ℤ → Job → Job
  later cfg now j = record j {
    attempt = suc j.attempt;
    available_at = now +ℤ backoff cfg (suc j.attempt);
  }

  -- What becomes of a job: done, dead, or delayed, by its handler and its attempts.
  abbrev pub Fate : JobsConfig → List (String × Handler) → ℤ → Job → ℕ → Store → Store → Type 0
  Fate cfg handlers now j most s s' =
      ((run_handler r (lookup j.kind handlers) j ≡ true)
        × (hget s' jobs j.id ≡ none)
        × (hget s' priorities j.id ≡ none)
        × Elsewhere j.id processing processing jobs priorities s s')
      ⊎ ((run_handler r (lookup j.kind handlers) j ≡ false)
          × (most ≤ j.attempt + 1)
          × (score s' dlq j.id ≡ some (milli now))
          × (hget s' jobs j.id ≡ some (Cell.job (again j)))
          × Elsewhere j.id processing dlq jobs jobs s s')
      ⊎ ((run_handler r (lookup j.kind handlers) j ≡ false)
          × (j.attempt + 1 < most)
          × (score s' delayed j.id ≡ some (milli (later cfg now j).available_at))
          × (hget s' jobs j.id ≡ some (Cell.job (later cfg now j)))
          × Elsewhere j.id processing delayed jobs jobs s s')

  ack-Fate :
      (j : Job) (s : Store)
      → (hget (ack_script r j.id s) jobs j.id ≡ none)
        × (hget (ack_script r j.id s) priorities j.id ≡ none)
  unfolding ack_script
  ack-Fate j s =
      let s1 = zrem processing j.id s in
      let s2 = hdel jobs j.id s1 in
      (
        ground
            (arith, r.hget-hdel priorities j.id s2 jobs j.id, r.hget-hdel jobs j.id s1 jobs j.id),
        ground (arith, r.hget-hdel priorities j.id s2 priorities j.id),
      )

  -- When a handler has returned, its job, which has a natural number of attempts, leaves the processing set: it is gone with its records if
  -- the handler succeeded; else it is dead-lettered if this was its last attempt, and delayed by the
  -- backoff otherwise, with its attempts counted; in these two its priority is kept. No list, no idempotency key and no other
  -- job is touched, and of this job nothing in the other sorted sets and hashes.
  pub handle-Fate :
      (cfg : JobsConfig) (handlers : List (String × Handler)) (now : ℤ) (j : Job) (s : Store)
      (most : ℕ)
      → j.max_attempts ≡ pos most
      → Released j.id s (handle r cfg handlers now j s)
        × Fate cfg handlers now j most s (handle r cfg handlers now j s)
  unfolding handle
  handle-Fate cfg handlers now j s most h =
      elim (Bool-cases (run_handler r (lookup j.kind handlers) j)) [
        | inl ran ↦
            rw ran
              (ack-Released j s, inl (refl, (ack-Fate j s).0, (ack-Fate j s).1, ack-Elsewhere j s))
        | inr not_run ↦ elim (failed-verdict cfg now j most h) [
          | inl (p, e) ↦
              rw (not_run, e)
                (
                  move-Released dlq (again j) (milli now) s (λ q. ground arith),
                  inr (
                      inl (
                        refl,
                        p,
                        (move-arrives dlq (again j) (milli now) s).0,
                        (move-arrives dlq (again j) (milli now) s).1,
                        move-Elsewhere dlq (again j) (milli now) s,
                      )),
                )
          | inr (p, e) ↦
              rw (not_run, e)
                (
                  move-Released delayed (later cfg now j) (milli (later cfg now j).available_at) s
                      (λ q. ground arith),
                  inr (
                      inr (
                        refl,
                        p,
                        (move-arrives delayed (later cfg now j)
                            (milli (later cfg now j).available_at) s).0,
                        (move-arrives delayed (later cfg now j)
                            (milli (later cfg now j).available_at) s).1,
                        move-Elsewhere delayed (later cfg now j)
                            (milli (later cfg now j).available_at) s,
                      )),
                )
        ]
      ]
