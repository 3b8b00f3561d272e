-- ===== src/Tokens/Ohlc/Commands.antt =====
-- The Redis commands that ohlc-aggregation.service.ts calls, with the numbers that it stores.
use solsight_api.Prelude.{
  ℕ, ◌+◌, String, ◌&&◌, Option, none, some, List, or_else, string_eq, ◌==◌, if◌then◌else◌, ◌≡◌, ◌≢◌,
  ◌<◌,
}

pub data KeyKind : Type 0 where
  absent hash number : KeyKind

-- The commands that the script and the readers call
pub record OhlcCommands : Type 1 where
  pub State : Type 0
  pub kind : String → State → KeyKind
  pub get : String → State → Option ℕ
  pub set : String → ℕ → State → State
  pub hget : String → String → State → Option ℕ
  pub hset : String → String → ℕ → State → State
  pub hincrbyfloat : String → String → ℕ → State → State
  pub expire : String → ℕ → State → State
  -- a bucket in a key's name, and `Number` of a part of a name, `none` where it is not finite
  pub text : ℕ → String
  pub to_number : String → Option ℕ
  -- the keys that `SCAN` with a pattern returns, page by page, up to the cursor "0"
  pub scan : String → State → List (List String)

-- What the Redis manual says of them; a command on a key of another kind is not covered.
pub record OhlcDocumented (c : OhlcCommands) : Type 0 where
  pub hget_absent : (k f : String) (s : c.State) → c.kind k s ≡ absent → c.hget k f s ≡ none
  pub kind-hset :
      (k j f : String) (v : ℕ) (s : c.State)
      → c.kind k s ≢ number
      → c.kind j (c.hset k f v s) ≡ (if k == j then hash else c.kind j s)
  pub hget-hset :
      (k j f g : String) (v : ℕ) (s : c.State)
      → c.kind k s ≢ number
      → c.hget j g (c.hset k f v s) ≡ (if (k == j) && (f == g) then some v else c.hget j g s)
  pub get-hset :
      (k j f : String) (v : ℕ) (s : c.State)
      → c.kind k s ≢ number
      → c.get j (c.hset k f v s) ≡ c.get j s
  pub hincr_lem :
      (k f : String) (v : ℕ) (s : c.State)
      → c.kind k s ≢ number
      → c.hincrbyfloat k f v s ≡ c.hset k f (or_else (c.hget k f s) 0 + v) s
  pub kind-set :
      (k j : String) (v : ℕ) (s : c.State)
      → c.kind j (c.set k v s) ≡ (if k == j then number else c.kind j s)
  pub hget-set :
      (k j f : String) (v : ℕ) (s : c.State) → k ≢ j → c.hget j f (c.set k v s) ≡ c.hget j f s
  pub get-set :
      (k j : String) (v : ℕ) (s : c.State)
      → c.get j (c.set k v s) ≡ (if k == j then some v else c.get j s)
  pub kind-expire :
      (k j : String) (n : ℕ) (s : c.State) → 0 < n → c.kind j (c.expire k n s) ≡ c.kind j s
  pub hget-expire :
      (k j f : String) (n : ℕ) (s : c.State) → 0 < n → c.hget j f (c.expire k n s) ≡ c.hget j f s
  pub get-expire :
      (k j : String) (n : ℕ) (s : c.State) → 0 < n → c.get j (c.expire k n s) ≡ c.get j s
  pub to_number-text : (n : ℕ) → c.to_number (c.text n) ≡ some n
  pub to_number_word : c.to_number "last_close" ≡ none
