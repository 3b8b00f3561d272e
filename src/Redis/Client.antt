-- ===== src/Redis/Client.antt =====
-- The Redis client (ioredis) and `JSON`, as the services of redis/services use them. A command takes
-- the state of the server and returns its reply, or the error with which its promise rejects, and
-- the new state.
use solsight_api.Prelude.{ℕ, String, Bool, Option, some, List, Result, ok, ◌≡◌}

pub data RedisError : Type 0 where
  -- the message of the error includes "WRONGTYPE"
  wrong_type : RedisError
  other : RedisError

-- `JSON.parse` and `JSON.stringify`; `none` is the `SyntaxError`.
pub record Json : Type 1 where
  pub Value : Type 0
  pub parse : String → Option Value
  pub stringify : Value → String
  -- `v && typeof v === "object"`
  pub is_object : Value → Bool
  pub parse-stringify : (v : Value) → parse (stringify v) ≡ some v

pub record RedisClient : Type 1 where
  pub State : Type 0
  pub get : String → State → Result RedisError (Option String) × State
  pub set : String → String → State → Result RedisError (Unit {0}) × State
  pub setex : String → ℕ → String → State → Result RedisError (Unit {0}) × State
  pub del : String → State → Result RedisError ℕ × State
  pub exists : String → State → Result RedisError ℕ × State
  pub incr : String → State → Result RedisError ℕ × State
  pub expire : String → ℕ → State → Result RedisError ℕ × State
  -- `none` stands for the negative replies: no key, or no time to live
  pub ttl : String → State → Result RedisError (Option ℕ) × State
  pub keys : String → State → Result RedisError (List String) × State
  pub hset : String → List (String × String) → State → Result RedisError (Unit {0}) × State
  pub hget : String → String → State → Result RedisError (Option String) × State
  pub hgetall : String → State → Result RedisError (List (String × String)) × State
  pub sadd : String → List String → State → Result RedisError ℕ × State
  pub spop : String → ℕ → State → Result RedisError (List String) × State
  pub scard : String → State → Result RedisError ℕ × State
  pub sismember : String → String → State → Result RedisError ℕ × State
  pub smembers : String → State → Result RedisError (List String) × State
  pub srem : String → List String → State → Result RedisError ℕ × State
  pub flushdb : State → Result RedisError (Unit {0}) × State

-- A server that answers: a value that was stored is read back, and other keys are not touched.
pub record Answers (c : RedisClient) : Type 0 where
  pub get-setex :
      (k v : String) (ttl : ℕ) (s t : c.State)
      → c.setex k ttl v s ≡ (ok tt, t)
      → (c.get k t).0 ≡ ok (some v)
  pub get-set :
      (k v : String) (s t : c.State) → c.set k v s ≡ (ok tt, t) → (c.get k t).0 ≡ ok (some v)
