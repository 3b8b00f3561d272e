-- ===== src/Staking/Bytes.antt =====
-- staking/services/staking-chain.utils.ts: the byte helpers. A Uint8Array is a list of bytes that is
-- the whole of its buffer, so that a DataView reads no further; a read past the end throws.
pub mod Roundtrip
use solsight_api.Prelude.{
  ℕ, zero, suc, ◌+◌, ◌*◌, ◌/◌, ◌%◌, List, [], ◌∷◌, ◌++◌, length, take, drop, leb, Result, ok, err,
  ◌>>=◌, guard, ◌>>◌,
}
use solsight_api.Staking.Types.{StakingError, range_error, PublicKey}

-- `DataView.getUint32(offset, true)`
abbrev pub u32_of : List ℕ → Result StakingError ℕ
u32_of (a ∷ b ∷ c ∷ d ∷ rest) = ok (a + 256 * b + 65536 * c + 16777216 * d)
u32_of _ = err range_error

unfoldable pub get_uint32 : List ℕ → ℕ → Result StakingError ℕ
get_uint32 bytes offset = u32_of (drop offset bytes)

unfoldable pub read_u64_le : List ℕ → ℕ → Result StakingError ℕ
unfolding get_uint32
read_u64_le bytes offset = do
  lo ← get_uint32 bytes offset
  hi ← get_uint32 bytes (offset + 4)
  ok (lo + hi * 0x100000000)

unfoldable pub read_u128_le : List ℕ → ℕ → Result StakingError ℕ
unfolding read_u64_le
read_u128_le bytes offset = do
  lo ← read_u64_le bytes offset
  hi ← read_u64_le bytes (offset + 8)
  ok (lo + hi * 0x10000000000000000)

unfoldable pub pubkey_at : List ℕ → ℕ → Result StakingError PublicKey
pubkey_at bytes offset =
    guard (leb (offset + 32) (length bytes)) range_error >> ok (take 32 (drop offset bytes))

-- The `n` lowest bytes of a number, lowest first
abbrev pub le_bytes : ℕ → ℕ → List ℕ
le_bytes zero value = []
le_bytes (suc n) value = value % 256 ∷ le_bytes n (value / 256)

-- `u64LE`: `setBigUint64` keeps the number modulo 2 ^ 64.
unfoldable pub u64_le : ℕ → List ℕ
u64_le value = le_bytes 8 value

-- `concat`, and `Buffer.concat`
unfoldable pub concat : List (List ℕ) → List ℕ
concat [] = []
concat (part ∷ parts) = part ++ concat parts
