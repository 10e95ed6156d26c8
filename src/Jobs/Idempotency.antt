-- ===== src/Jobs/Idempotency.antt =====
-- What the idempotency key of a request buys.
use nexa_flow.Prelude.{
  ℕ, ◌≡◌, refl, ◌∙◌, false, true, String, none, some, arith, ◌==◌, ◌||◌, string_eq, ok,
}
use nexa_flow.Prelude.Int.{ℤ, pos, pos_part, ltb_ℤ, ◌+ℤ◌}
use nexa_flow.Jobs.Model.{
  Job, Request, JobsConfig, Key, Cell, jobs, priorities, delayed, ready, milli,
}
use nexa_flow.Jobs.Redis.{Redis, key_eq}
use nexa_flow.Jobs.Scripts.{store_job, enqueue_script}
use nexa_flow.Jobs.Queue.{new_job, idempotency_of, load, enqueue}

module _ (r : Redis) where
  open r use {Store, list, score, hget, get, set, hset, zadd, rpush}

  -- The job of an id is stored, and the key of a request names it.
  store_job-get :
      (j : Job) (p : ℕ) (at now clock : ℤ) (s : Store) (k : Key)
      → get (store_job r j p at now s) clock k ≡ get s clock k
  unfolding store_job
  store_job-get j p at now clock s k =
      let s1 = hset jobs j.id (Cell.job j) s in
      let s2 = hset priorities j.id (Cell.priority p) s1 in
      ground (
        arith,
        r.get-zadd delayed at j.id s2 clock k,
        r.get-rpush (ready p) j.id s2 clock k,
        r.get-hset priorities j.id (Cell.priority p) s1 clock k,
        r.get-hset jobs j.id (Cell.job j) s clock k,
      )

  store_job-hget :
      (j : Job) (p : ℕ) (at now : ℤ) (s : Store)
      → hget (store_job r j p at now s) jobs j.id ≡ some (Cell.job j)
  unfolding store_job
  store_job-hget j p at now s =
      let s1 = hset jobs j.id (Cell.job j) s in
      let s2 = hset priorities j.id (Cell.priority p) s1 in
      ground (
        arith,
        r.hget-zadd delayed at j.id s2 jobs j.id,
        r.hget-rpush (ready p) j.id s2 jobs j.id,
        r.hget-hset priorities j.id (Cell.priority p) s1 jobs j.id,
        r.hget-hset jobs j.id (Cell.job j) s jobs j.id,
      )

  module _ (cfg : JobsConfig) where
    -- When a key that is taken at a time expires.
    abbrev end_of : ℤ → ℤ
    end_of now = milli now +ℤ milli (pos cfg.idempotency_ttl)

    -- The store after a first request with a free key.
    abbrev first_store : Request → String → ℤ → Key → Store → Store
    first_store q id now key s =
        store_job r (new_job q id now) (pos_part q.priority) (milli (new_job q id now).available_at)
          (milli now) (set key id (end_of now) s)

    first_store-get :
        (q : Request) (id : String) (now clock : ℤ) (key : Key) (s : Store)
        → ltb_ℤ clock (end_of now) ≡ true
        → get (first_store q id now key s) clock key ≡ some id
    first_store-get q id now clock key s early =
        store_job-get (new_job q id now) (pos_part q.priority)
          (milli (new_job q id now).available_at) (milli now) clock (set key id (end_of now) s) key
        ∙ ground (arith, r.get-set key id (end_of now) s clock key, early)

    abbrev Accepted : Request → Type 0
    Accepted q =
        ((q.kind == "") ≡ false) × ((ltb_ℤ q.priority (pos 0) || ltb_ℤ (pos 9) q.priority) ≡ false)

    first_enqueue :
        (q : Request) (id : String) (now : ℤ) (key : Key) (s : Store)
        → Accepted q
        → idempotency_of q ≡ some key
        → get s (milli now) key ≡ none
        → enqueue r cfg q id now s ≡ ok (new_job q id now, first_store q id now key s)
    unfolding enqueue enqueue_script
    first_enqueue q id now key s a k free = rw (a.0, a.1, k, free) (ground arith)

    repeat_enqueue :
        (q : Request) (id first : String) (now : ℤ) (key : Key) (s : Store) (j : Job)
        → Accepted q
        → idempotency_of q ≡ some key
        → get s (milli now) key ≡ some first
        → hget s jobs first ≡ some (Cell.job j)
        → (first == id) ≡ false
        → enqueue r cfg q id now s ≡ ok (j, s)
    unfolding enqueue enqueue_script load
    repeat_enqueue q id first now key s j a k taken stored other =
        rw (a.0, a.1, k, taken, other, stored) refl

    -- When a request of a kind and a priority in range, with an idempotency key that is free, is
    -- enqueued, and enqueued again on what the first call left, under another id and at a time before
    -- the IdempotencyTTL of the key is over, the first call stores its new job, and the second returns
    -- that same job and leaves the store as the first call left it.
    pub enqueue-once :
        (q : Request) (id again : String) (now later : ℤ) (key : Key) (s : Store)
        → ((q.kind == "") ≡ false)
          × ((ltb_ℤ q.priority (pos 0) || ltb_ℤ (pos 9) q.priority) ≡ false)
        → idempotency_of q ≡ some key
        → get s (milli now) key ≡ none
        → (id == again) ≡ false
        → ltb_ℤ (milli later) (milli now +ℤ milli (pos cfg.idempotency_ttl)) ≡ true
        → (s' : Store) × (enqueue r cfg q id now s ≡ ok (new_job q id now, s'))
          × (hget s' jobs id ≡ some (Cell.job (new_job q id now)))
          × (enqueue r cfg q again later s' ≡ ok (new_job q id now, s'))
    enqueue-once q id again now later key s a k free other early =
        let stored =
          store_job-hget (new_job q id now) (pos_part q.priority)
            (milli (new_job q id now).available_at) (milli now) (set key id (end_of now) s) in
        (
          first_store q id now key s,
          first_enqueue q id now key s a k free,
          stored,
          repeat_enqueue q again id later key (first_store q id now key s) (new_job q id now) a k
              (first_store-get q id now (milli later) key s early) stored other,
        )
