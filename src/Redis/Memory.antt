-- ===== src/Redis/Memory.antt =====
-- A small server for the tests: strings under keys, one counter, and one hash that is never there.
use solsight_api.Prelude.{
  true, ℕ, ◌+◌, String, Option, none, some, List, [], ◌∷◌, Result, ok, err, ◌≡◌, refl, ap,
  if◌then◌else◌, ◌==◌, string_eq, eq_self,
}
use solsight_api.Redis.Client.{RedisError, wrong_type, other, Json, RedisClient, Answers}

abbrev pub Memory : Type 0
Memory = List (String × String) × ℕ

abbrev pub lookup : String → List (String × String) → Option String
lookup k [] = none
lookup k ((j, v) ∷ m) = if j == k then some v else lookup k m

abbrev pub memory : RedisClient
memory = record {
  State = Memory;
  get = λ k s. (ok (lookup k s.0), s);
  set = λ k v s. (ok tt, ((k, v) ∷ s.0, s.1));
  setex = λ k n v s. (ok tt, ((k, v) ∷ s.0, s.1));
  del = λ k s. (ok 1, s);
  exists = λ k s. (ok 0, s);
  incr = λ k s. (ok (s.1 + 1), (s.0, s.1 + 1));
  expire = λ k n s. (ok 1, s);
  ttl = λ k s. (ok none, s);
  keys = λ p s. (ok [], s);
  hset = λ k f s. (err wrong_type, s);
  hget = λ k f s. (ok none, s);
  hgetall = λ k s. (err other, s);
  sadd = λ k ms s. (ok 1, s);
  spop = λ k n s. (ok [], s);
  scard = λ k s. (ok 0, s);
  sismember = λ k m s. (ok 0, s);
  smembers = λ k s. (ok [], s);
  srem = λ k ms s. (ok 1, s);
  flushdb = λ s. (ok tt, ([], 0));
}

memory_get :
    (k v : String) (s : Memory) (t : Memory)
    → ◌≡◌ {A = Result RedisError (Unit {0}) × Memory} (ok tt, ((k, v) ∷ s.0, s.1)) (ok tt, t)
    → ◌≡◌ {A = Result RedisError (Option String)} (ok (lookup k t.0)) (ok (some v))
memory_get k v s t e =
    let same : (k, v) ∷ s.0 ≡ t.0 = ap (λ p. p.1.0) e in rw (← same) (rw (eq_self k) refl)

pub memory-Answers : Answers memory
memory-Answers = record {
  get-setex = λ k v n s t e. memory_get k v s t e;
  get-set = λ k v s t e. memory_get k v s t e;
}

-- The one object `{}`
abbrev pub braces : Json
braces = record {
  Value = Unit {0};
  parse = λ s. if s == "{}" then some tt else none;
  stringify = λ v. "{}";
  is_object = λ v. true;
  parse-stringify = λ v. refl;
}
