-- ===== src/Tokens/Prices/Server.antt =====
-- A small server of hashes and a numeral system in unary: what the parameters of the price service
-- ask for can be met.
use text.Mathlib.TextLemmas.{nil-append, cons-append}
use mathlib.Core.Option
use solsight_api.Prelude.{
  ℕ, zero, suc, ◌+◌, ◌-◌, String, Option, none, some, List, [], ◌∷◌, ◌++◌, ◌≡◌, refl, arith,
  string_eq, eq_self, lookup, insert, false, ap, delete, lookup-insert, lookup-delete, Option-cases,
  inl, inr, ltb,
}
use solsight_api.Prelude.Text.{is_blank, ◌⊕◌}
use solsight_api.Redis.Scripts.{Commands, Documented, KeyType, absent, hash, written}
use solsight_api.Tokens.Prices.{Numbers}

abbrev pub Hash : Type 0
Hash = List (String × String) × Option ℕ

abbrev pub Server : Type 0
Server = List (String × Hash)

abbrev pub kind : Option Hash → KeyType
kind none = absent
kind (some h) = hash

abbrev pub field_in : String → Option Hash → Option String
field_in f none = none
field_in f (some h) = lookup f h.0

abbrev pub left : Option Hash → Option ℕ
left none = none
left (some h) = h.1

abbrev pub stored : List (String × String) → Option Hash → Hash
stored fs none = (fs, none)
stored fs (some h) = (fs ++ h.0, h.1)

abbrev pub expired : String → ℕ → Option Hash → Server → Server
expired k n none s = s
expired k n (some h) s = insert k (h.0, some n) s

abbrev pub server : Commands
server = record {
  State = Server;
  type_of = λ k s. kind (lookup k s);
  ttl = λ k s. left (lookup k s);
  hget = λ k f s. field_in f (lookup k s);
  del = λ k s. delete k s;
  hset = λ k fs s. insert k (stored fs (lookup k s)) s;
  expire = λ k n s. expired k n (lookup k s) s;
}

lookup-append :
    (f : String) (xs ys : List (String × String))
    → lookup f (xs ++ ys) ≡ written (lookup f xs) (lookup f ys)
unfolding lookup
lookup-append f [] ys = refl
lookup-append f ((g, v) ∷ xs) ys = ground (arith, lookup-append f xs ys)

field-stored :
    (f : String) (fs : List (String × String)) (h : Option Hash)
    → field_in f (some (stored fs h)) ≡ written (lookup f fs) (field_in f h)
field-stored f fs none = ground arith
field-stored f fs (some h) = lookup-append f fs h.0

found_self : (k : String) (h : Hash) (s : Server) → lookup k (insert k h s) ≡ some h
found_self k h s = rw (lookup-insert k k h s, eq_self k)

found-expire :
    (k : String) (n : ℕ) (s : Server)
    → lookup k (server.expire k n s) ≡ Option.map (λ (h : Hash). (h.0, some n)) (lookup k s)
found-expire k n s = elim (Option-cases (lookup k s)) [
  | inl e ↦ rw (e, expired) e
  | inr (h, e) ↦ rw (e, expired) (found_self k (h.0, some n) s)
]

pub server-Documented : Documented server
server-Documented = record {
  type-del = λ k s. rw (lookup-delete k k s, eq_self k);
  hget_absent = λ k f s e. ground (arith, e);
  type-hset = λ k fs s own. rw (found_self k (stored fs (lookup k s)) s);
  hget-hset =
      λ k f fs s own. rw (found_self k (stored fs (lookup k s)) s) (field-stored f fs (lookup k s));
  type-expire = λ k n s pos. rw (found-expire k n s) (ground arith);
  hget-expire = λ k f n s pos. rw (found-expire k n s) (ground arith);
  ttl-expire = λ k n s pos e. rw (found-expire k n s) (ground (arith, e));
}

-- A number in unary, with one character more than it has units
unfoldable pub unary : ℕ → String
unary zero = "0"
unary (suc n) = "1" ⊕ unary n

unfoldable pub units : String → ℕ
units String.[] = 0
units (String.◌∷◌ c s) = units s + 1

units-unary : (n : ℕ) → units (unary n) ≡ n + 1
unfolding unary units
units-unary zero = refl
units-unary (suc n) = rw cons-append (rw nil-append (omega (arith, units-unary n)))

pub unary_full : (n : ℕ) → is_blank (unary n) ≡ false
unfolding unary
unary_full zero = refl
unary_full (suc n) = rw cons-append

pub read_back : (n : ℕ) → some (units (unary n) - 1) ≡ some n
read_back n = rw (units-unary n) (ap some (omega arith))

pub read_zero : some (units "0" - 1) ≡ some 0
unfolding units
read_zero = refl

abbrev pub unary_numbers : Numbers
unary_numbers = record {
  Number = ℕ;
  zero = 0;
  is_valid_write_price = ltb 0;
  text = unary;
  parse_float = λ s. some (units s - 1);
  slot_text = unary;
  to_number = λ s. some (units s - 1);
  parse-text = λ n valid. read_back n;
  text_not_blank = unary_full;
  to_number_zero = read_zero;
  to_number-slot_text = read_back;
}
