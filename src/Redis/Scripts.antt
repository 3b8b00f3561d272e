-- ===== src/Redis/Scripts.antt =====
-- The Redis commands that the Lua scripts of the services call. They are not part of the repository:
-- `Commands` names them, and `Documented` states what the Redis manual says of them.
use solsight_api.Prelude.{ℕ, String, Option, none, some, List, ◌≡◌, ◌≢◌, ◌<◌, string_eq, lookup}

-- The replies of `TYPE` that the scripts tell apart
pub data KeyType : Type 0 where
  absent hash other_type : KeyType

pub record Commands : Type 1 where
  pub State : Type 0
  pub type_of : String → State → KeyType
  -- `none` stands for the negative replies
  pub ttl : String → State → Option ℕ
  pub hget : String → String → State → Option String
  pub del : String → State → State
  pub hset : String → List (String × String) → State → State
  pub expire : String → ℕ → State → State

-- The field as `HSET` leaves it
abbrev pub written : Option String → Option String → Option String
written none before = before
written (some value) before = some value

pub record Documented (c : Commands) : Type 0 where
  pub type-del : (k : String) (s : c.State) → c.type_of k (c.del k s) ≡ absent
  pub hget_absent : (k f : String) (s : c.State) → c.type_of k s ≡ absent → c.hget k f s ≡ none
  pub type-hset :
      (k : String) (fs : List (String × String)) (s : c.State)
      → c.type_of k s ≢ other_type
      → c.type_of k (c.hset k fs s) ≡ hash
  pub hget-hset :
      (k f : String) (fs : List (String × String)) (s : c.State)
      → c.type_of k s ≢ other_type
      → c.hget k f (c.hset k fs s) ≡ written (lookup f fs) (c.hget k f s)
  pub type-expire :
      (k : String) (n : ℕ) (s : c.State) → 0 < n → c.type_of k (c.expire k n s) ≡ c.type_of k s
  pub hget-expire :
      (k f : String) (n : ℕ) (s : c.State) → 0 < n → c.hget k f (c.expire k n s) ≡ c.hget k f s
  pub ttl-expire :
      (k : String) (n : ℕ) (s : c.State)
      → 0 < n
      → c.type_of k s ≡ hash
      → c.ttl k (c.expire k n s) ≡ some n
