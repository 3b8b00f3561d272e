-- ===== src/Redis/Service/Laws.antt =====
-- redis.service.ts: what is read back of a value that was stored, and when `hset` rejects.
use solsight_api.Prelude.{
  ℕ, ◌<◌, String, false, none, some, List, ok, err, ◌≡◌, ◌≢◌, refl, ◌∙◌, ◌↔◌, ◌⊎◌, arith,
}
use solsight_api.Prelude.Text.{is_blank}
use solsight_api.Redis.Client.{RedisError, wrong_type, Json, RedisClient, Answers}
use solsight_api.Redis.Service.{Stored, text, value, string_value, get, set, hset}

module _ (c : RedisClient) (js : Json) where
  -- A string that is not JSON, or any other value, as long as what is stored is not empty.
  abbrev pub ReadsBack : Stored js → Type 0
  ReadsBack (text s) = (is_blank s ≡ false) × (js.parse s ≡ none)
  ReadsBack (value v) = is_blank (js.stringify v) ≡ false

  get_of_string :
      (key v : String) (s : c.State)
      → is_blank v ≡ false
      → (c.get key s).0 ≡ ok (some v)
      → (get c js key (some s)).0 ≡ some (elim (js.parse v) [ none ↦ text v | some j ↦ value j ])
  unfolding get
  get_of_string key v s full e = ground arith

  set_stored :
      (key : String) (v : Stored js) (ttl : ℕ) (s t : c.State)
      → 0 < ttl
      → c.setex key ttl (string_value c js v) s ≡ (ok tt, t)
      → (set c js key v (some ttl) (some s)).1 ≡ some t
  unfolding set
  set_stored key v ttl s t pos e = ground arith

  -- On a server that answers, `get` gives back what `set` stored under the key, if that is a string
  -- that is no JSON text, or another value, and is not stored as the empty string.
  get-set :
      (key : String) (v : Stored js) (ttl : ℕ) (s t : c.State)
      → Answers c
      → ReadsBack v
      → 0 < ttl
      → c.setex key ttl (string_value c js v) s ≡ (ok tt, t)
      → (get c js key (set c js key v (some ttl) (some s)).1).0 ≡ some v
  get-set key (text v) ttl s t ans (full, plain) pos e =
      rw (set_stored key (text v) ttl s t pos e)
        (get_of_string key v t full (ans.get-setex key v ttl s t e) ∙ rw plain refl)
  get-set key (value v) ttl s t ans full pos e = rw (set_stored key (value v) ttl s t pos e) (
      get_of_string key (js.stringify v) t full (ans.get-setex key _ ttl s t e)
      ∙ rw (js.parse-stringify v) refl)

  -- A stored string that happens to be a JSON text is not read back: `get` parses it.
  get-set_json_text :
      (key v : String) (j : js.Value) (ttl : ℕ) (s t : c.State)
      → Answers c
      → is_blank v ≡ false
      → js.parse v ≡ some j
      → 0 < ttl
      → c.setex key ttl v s ≡ (ok tt, t)
      → ((get c js key (set c js key (text v) (some ttl) (some s)).1).0 ≡ some (value j))
        × ((get c js key (set c js key (text v) (some ttl) (some s)).1).0 ≢ some (text v))
  get-set_json_text key v j ttl s t ans full is_json pos e =
      let got : (get c js key (set c js key (text v) (some ttl) (some s)).1).0 ≡ some (value j) =
        rw (set_stored key (text v) ttl s t pos e)
          (get_of_string key v t full (ans.get-setex key v ttl s t e) ∙ rw is_json refl) in
      (got, λ h. cc (got, h))

module _ (c : RedisClient) where
  -- `hset` rejects exactly when the key holds another type and then the deletion, or the second
  -- write, fails: an error of the first write alone is swallowed.
  hset_rejects_iff :
      (key : String) (fields : List (String × String)) (s : c.State) (e : RedisError)
      → let first = c.hset key fields s in
        let deleted = c.del key first.1 in
        ((hset c key fields (some s)).0 ≡ err e) ↔ (
          (first.0 ≡ err wrong_type)
          × ((deleted.0 ≡ err e)
              ⊎ ((n : ℕ) × (deleted.0 ≡ ok n) × ((c.hset key fields deleted.1).0 ≡ err e))))
  unfolding hset
  hset_rejects_iff key fields s e = ground arith
