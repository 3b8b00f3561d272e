-- ===== src/Staking/Chain.antt =====
-- What the staking service uses of web3.js, of the RPC node and of the configuration.
use solsight_api.Prelude.{ℕ, String, Option, List}
use solsight_api.Staking.Types.{PublicKey}

-- A seed of a derived address
pub data Seed : Type 0 where
  text : String → Seed
  bytes : List ℕ → Seed

pub record Web3 : Type 0 where
  -- `new PublicKey`, `none` where it throws, and `toBase58`
  pub new_public_key : String → Option PublicKey
  pub to_base58 : PublicKey → String
  pub find_program_address : List Seed → PublicKey → PublicKey
  pub get_associated_token_address : PublicKey → PublicKey → PublicKey
  pub create_with_seed : PublicKey → String → PublicKey → PublicKey

pub record AccountInfo : Type 0 where
  pub lamports : ℕ
  pub data_bytes : List ℕ

-- The answers of the node during one call.
pub record Rpc : Type 0 where
  pub get_account_info : PublicKey → Option AccountInfo
  pub rent_exempt_lamports : ℕ
  pub epoch : ℕ
  -- the first 26 characters of the latest blockhash
  pub blockhash_start : String
