-- ===== src/Tokens/Ohlc/Server.antt =====
-- A small server of hashes and numbers: what the candles ask of Redis can be met.
use text.Mathlib.TextEquality.{eq_iff}
use text.Mathlib.TextLemmas.{cons-append}
use solsight_api.Prelude.{
  ℕ, zero, suc, ◌+◌, ◌-◌, String, false, ◌&&◌, Option, none, some, List, [], ◌≡◌, refl, arith,
  string_eq, ◌==◌, eq→≡, ap, lookup, insert, delete, lookup-insert, lookup-delete, or_else,
  if◌then◌else◌, Bool-cases, Option-cases, inl, inr,
}
use solsight_api.Prelude.Text.{strip_prefix}
use solsight_api.Tokens.Prices.Server.{unary, units, read_back}
use solsight_api.Tokens.Ohlc.Commands.{OhlcCommands, OhlcDocumented, KeyKind, absent, hash, number}

pub record Keyspace : Type 0 where
  pub hashes : List (String × List (String × ℕ))
  pub numbers : List (String × ℕ)

abbrev pub kind_in : Option (List (String × ℕ)) → Option ℕ → KeyKind
kind_in (some fs) n = hash
kind_in none (some n) = number
kind_in none none = absent

abbrev pub field_in : String → Option (List (String × ℕ)) → Option ℕ
field_in f none = none
field_in f (some fs) = lookup f fs

abbrev pub put : String → String → ℕ → Keyspace → Keyspace
put k f v s = record s { hashes = insert k (insert f v (or_else (lookup k s.hashes) [])) s.hashes }

abbrev pub number_of : String → Option ℕ
number_of s = if s == "last_close" then none else some (units s - 1)

abbrev pub keyspace : OhlcCommands
keyspace = record {
  State = Keyspace;
  kind = λ k s. kind_in (lookup k s.hashes) (lookup k s.numbers);
  get = λ k s. lookup k s.numbers;
  set = λ k v s. record s { hashes = delete k s.hashes; numbers = insert k v s.numbers };
  hget = λ k f s. field_in f (lookup k s.hashes);
  hset = put;
  hincrbyfloat = λ k f v s. put k f (or_else (field_in f (lookup k s.hashes)) 0 + v) s;
  expire = λ k n s. s;
  text = unary;
  to_number = number_of;
  scan = λ pattern s. [];
}

kind-put :
    (k j f : String) (v : ℕ) (s : Keyspace)
    → keyspace.kind j (put k f v s) ≡ (if k == j then hash else keyspace.kind j s)
kind-put k j f v s =
    ground (arith, lookup-insert k j (insert f v (or_else (lookup k s.hashes) [])) s.hashes)

hget-put :
    (k j f g : String) (v : ℕ) (s : Keyspace)
    → keyspace.hget j g (put k f v s)
      ≡ (if (k == j) && (f == g) then some v else keyspace.hget j g s)
unfolding lookup
hget-put k j f g v s = elim (Bool-cases (k == j)) [
  | inr other ↦ rw (lookup-insert k j (insert f v (or_else (lookup k s.hashes) [])) s.hashes, other)
  | inl same ↦
      rw (lookup-insert k j (insert f v (or_else (lookup k s.hashes) [])) s.hashes, same)
        (rw (← eq→≡ k j same) (elim (Option-cases (lookup k s.hashes)) [
          | inl e ↦ rw e (lookup-insert f g v [])
          | inr (fs, e) ↦ rw e (lookup-insert f g v fs)
        ]))
]

no_word : (n : ℕ) → strip_prefix "l" (unary n) ≡ none
unfolding unary strip_prefix
no_word zero = refl
no_word (suc n) = rw cons-append

unary_word : (n : ℕ) → (unary n == "last_close") ≡ false
unfolding strip_prefix
unary_word n = elim (Bool-cases (unary n == "last_close")) [
  | inr e ↦ e
  | inl same ↦ cc (no_word n, ap (strip_prefix "l") (eq→≡ (unary n) "last_close" same))
]

pub keyspace-Documented : OhlcDocumented keyspace
keyspace-Documented = record {
  hget_absent = λ k f s e. ground arith;
  kind-hset = λ k j f v s free. kind-put k j f v s;
  hget-hset = λ k j f g v s free. hget-put k j f g v s;
  get-hset = λ k j f v s free. refl;
  hincr_lem = λ k f v s free. refl;
  kind-set = λ k j v s. ground (arith, lookup-delete k j s.hashes, lookup-insert k j v s.numbers);
  hget-set = λ k j f v s ne. ground (arith, lookup-delete k j s.hashes, eq_iff k j);
  get-set = λ k j v s. lookup-insert k j v s.numbers;
  kind-expire = λ k j n s pos. refl;
  hget-expire = λ k j f n s pos. refl;
  get-expire = λ k j n s pos. refl;
  to_number-text = λ n. rw (unary_word n) (read_back n);
  to_number_word = refl;
}
