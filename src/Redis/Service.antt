-- ===== src/Redis/Service.antt =====
-- redis/services/redis.service.ts. The client is `null` when none could be had at start; then, and
-- when a command rejects, a method returns its fallback. Only `hset` and `hgetall` can reject, by
-- the commands in their `catch`.
pub mod Laws
use solsight_api.Prelude.{
  ℕ, String, Bool, true, false, Option, none, some, List, [], ◌∷◌, Result, ok, err, or_default,
  if◌then◌else◌, nat_beq,
}
use solsight_api.Prelude.Text.{is_blank}
use solsight_api.Redis.Client.{RedisError, wrong_type, other, Json, RedisClient}

-- A value of a type parameter `T`: a string, or anything else.
pub data Stored (js : Json) : Type 0 where
  text : String → Stored js
  value : js.Value → Stored js

module _ (c : RedisClient) where
  -- The service's state: its client with the server behind it, or `null`.
  abbrev pub Redis : Type 0
  Redis = Option c.State

  abbrev settled {ℓ} : {A : Type ℓ} → A → Result RedisError A × c.State → A × Redis
  settled fallback (r, s) = (or_default fallback r, some s)

  -- `if (!this.redis) return fallback; try { return await op } catch { return fallback }`
  abbrev pub attempt {ℓ} :
      {A : Type ℓ} → A → (c.State → Result RedisError A × c.State) → Redis → A × Redis
  attempt fallback op none = (fallback, none)
  attempt fallback op (some s) = settled fallback (op s)

  module _ (js : Json) where
    abbrev decode : Option String → Option (Stored js)
    decode none = none
    decode (some v) =
        if is_blank v then none else some (elim (js.parse v) [ none ↦ text v | some j ↦ value j ])

    abbrev decoded : Option String × Redis → Option (Stored js) × Redis
    decoded (v, r) = (decode v, r)

    unfoldable pub get : String → Redis → Option (Stored js) × Redis
    get key r = decoded (attempt none (c.get key) r)

    abbrev pub string_value : Stored js → String
    string_value (text s) = s
    string_value (value v) = js.stringify v

    -- `ttl` is absent or 0: no expiry.
    set_string : String → String → Option ℕ → Redis → Unit {0} × Redis
    set_string key v none r = attempt tt (c.set key v) r
    set_string key v (some ttl) r =
        if nat_beq ttl 0 then attempt tt (c.set key v) r else attempt tt (c.setex key ttl v) r

    unfoldable pub set : String → Stored js → Option ℕ → Redis → Unit {0} × Redis
    unfolding set_string
    set key v ttl r = set_string key (string_value v) ttl r

  unfoldable pub del : String → Redis → ℕ × Redis
  del key r = attempt 0 (c.del key) r

  -- `result === 1`
  abbrev is_one : ℕ × Redis → Bool × Redis
  is_one (n, r) = (nat_beq n 1, r)

  unfoldable pub exists : String → Redis → Bool × Redis
  exists key r = is_one (attempt 0 (c.exists key) r)

  abbrev just : Result RedisError ℕ × c.State → Result RedisError (Option ℕ) × c.State
  just (ok n, s) = (ok (some n), s)
  just (err e, s) = (err e, s)

  unfoldable pub incr : String → Redis → Option ℕ × Redis
  incr key r = attempt none (λ s. just (c.incr key s)) r

  unfoldable pub expire : String → ℕ → Redis → Bool × Redis
  expire key seconds r = is_one (attempt 0 (c.expire key seconds) r)

  -- A negative result (-1, -2) is `none`.
  unfoldable pub ttl : String → Redis → Option ℕ × Redis
  ttl key r = attempt none (c.ttl key) r

  unfoldable pub keys : String → Redis → List String × Redis
  keys pattern r = attempt [] (c.keys pattern) r

  recreate :
      String
      → List (String × String)
      → Result RedisError ℕ × c.State
      → Result RedisError (Unit {0}) × c.State
  recreate key fields (ok _, s) = c.hset key fields s
  recreate key fields (err e, s) = (err e, s)

  -- The `catch` of `hset`: a key of the wrong type is deleted and written anew, unprotected.
  hset_caught :
      String
      → List (String × String)
      → Result RedisError (Unit {0}) × c.State
      → Result RedisError (Unit {0}) × c.State
  unfolding recreate
  hset_caught key fields (ok _, s) = (ok tt, s)
  hset_caught key fields (err other, s) = (ok tt, s)
  hset_caught key fields (err wrong_type, s) = recreate key fields (c.del key s)

  abbrev connected {ℓ} : {A : Type ℓ} → A × c.State → A × Redis
  connected (a, s) = (a, some s)

  unfoldable pub hset :
      String → List (String × String) → Redis → Result RedisError (Unit {0}) × Redis
  unfolding hset_caught
  hset key fields none = (ok tt, none)
  hset key fields (some s) = connected (hset_caught key fields (c.hset key fields s))

  unfoldable pub hget : String → String → Redis → Option String × Redis
  hget key field r = attempt none (c.hget key field) r

  dropped :
      Result RedisError ℕ × c.State → Result RedisError (Option (List (String × String))) × c.State
  dropped (ok _, s) = (ok none, s)
  dropped (err e, s) = (err e, s)

  -- The `catch` of `hgetall`; a hash with no field is `null`.
  hgetall_caught :
      String
      → Result RedisError (List (String × String)) × c.State
      → Result RedisError (Option (List (String × String))) × c.State
  unfolding dropped
  hgetall_caught key (ok [], s) = (ok none, s)
  hgetall_caught key (ok (f ∷ fs), s) = (ok (some (f ∷ fs)), s)
  hgetall_caught key (err other, s) = (ok none, s)
  hgetall_caught key (err wrong_type, s) = dropped (c.del key s)

  unfoldable pub hgetall :
      String → Redis → Result RedisError (Option (List (String × String))) × Redis
  unfolding hgetall_caught
  hgetall key none = (ok none, none)
  hgetall key (some s) = connected (hgetall_caught key (c.hgetall key s))

  -- The commands on sets make no call for no members, or a count of 0.
  unfoldable pub sadd : String → List String → Redis → ℕ × Redis
  sadd key [] r = (0, r)
  sadd key (m ∷ ms) r = attempt 0 (c.sadd key (m ∷ ms)) r

  unfoldable pub spop : String → ℕ → Redis → List String × Redis
  spop key count r = if nat_beq count 0 then ([], r) else attempt [] (c.spop key count) r

  unfoldable pub scard : String → Redis → ℕ × Redis
  scard key r = attempt 0 (c.scard key) r

  unfoldable pub sismember : String → String → Redis → Bool × Redis
  sismember key member r = is_one (attempt 0 (c.sismember key member) r)

  unfoldable pub smembers : String → Redis → List String × Redis
  smembers key r = attempt [] (c.smembers key) r

  unfoldable pub srem : String → List String → Redis → ℕ × Redis
  srem key [] r = (0, r)
  srem key (m ∷ ms) r = attempt 0 (c.srem key (m ∷ ms)) r

  unfoldable pub flushdb : Redis → Unit {0} × Redis
  flushdb r = attempt tt c.flushdb r
