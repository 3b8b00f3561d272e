-- ===== src/Staking/Bytes/Roundtrip.antt =====
-- staking-chain.utils.ts: what is written is read back.
use solsight_api.Prelude.{
  ℕ, ◌+◌, ◌/◌, ◌%◌, ◌^◌, List, [], ◌∷◌, ◌++◌, length, drop, ok, ◌≡◌, refl, arith, ap, ◌∙◌, suc,
}
use solsight_api.Staking.Bytes.{get_uint32, read_u64_le, u32_of, le_bytes, u64_le}

-- A read behind other bytes
pub drop-append_length : (xs ys : List ℕ) (k : ℕ) → drop (length xs + k) (xs ++ ys) ≡ drop k ys
drop-append_length [] ys k = ap (λ n. drop n ys) (omega arith)
drop-append_length (x ∷ xs) ys k =
    ap (λ n. drop n (x ∷ (xs ++ ys))) (shift (length xs) k) ∙ drop-append_length xs ys k
  where
    shift : (n k : ℕ) → suc n + k ≡ suc (n + k)
    shift n k = omega arith

pub drop-append : (xs ys : List ℕ) → drop (length xs) (xs ++ ys) ≡ ys
drop-append [] ys = refl
drop-append (x ∷ xs) ys = drop-append xs ys

u32_of-le_bytes : (v : ℕ) (rest : List ℕ) → u32_of (le_bytes 4 v ++ rest) ≡ ok (v % 2 ^ 32)
u32_of-le_bytes v rest = ap ok (omega arith)

u32_of-high :
    (v : ℕ) (rest : List ℕ) → u32_of (drop 4 (le_bytes 8 v ++ rest)) ≡ ok (v / 2 ^ 32 % 2 ^ 32)
u32_of-high v rest = ap ok (omega arith)

get_uint32-low :
    (before rest : List ℕ) (v : ℕ)
    → get_uint32 (before ++ (u64_le v ++ rest)) (length before) ≡ ok (v % 2 ^ 32)
unfolding get_uint32 u64_le
get_uint32-low before rest v =
    ap u32_of (drop-append before (u64_le v ++ rest))
    ∙ u32_of-le_bytes v (le_bytes 4 (v / 256 / 256 / 256 / 256) ++ rest)

get_uint32-high :
    (before rest : List ℕ) (v : ℕ)
    → get_uint32 (before ++ (u64_le v ++ rest)) (length before + 4) ≡ ok (v / 2 ^ 32 % 2 ^ 32)
unfolding get_uint32 u64_le
get_uint32-high before rest v =
    ap u32_of (drop-append_length before (u64_le v ++ rest) 4) ∙ u32_of-high v rest

-- A number of 64 bits that stands behind other bytes is read back.
pub read_u64_le-u64_le :
    (before rest : List ℕ) (v : ℕ)
    → read_u64_le (before ++ (u64_le v ++ rest)) (length before) ≡ ok (v % 2 ^ 64)
unfolding read_u64_le
read_u64_le-u64_le before rest v =
    rw (get_uint32-low before rest v, get_uint32-high before rest v) (ap ok (omega arith))
