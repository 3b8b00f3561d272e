-- ===== src/Cluster.antt =====
-- common/cluster/cluster.types.ts and redis/channels.ts: the two networks, and the channels whose
-- names end in a network's name.
pub mod Channels
use solsight_api.Prelude.{
  String, Option, none, some, List, [], ◌∷◌, if◌then◌else◌, Bool, true, false, ◌==◌, string_eq, Eq,
  ◌↔◌, ◌≡◌, refl,
}

pub data Cluster : Type 0 where
  mainnet devnet : Cluster

abbrev pub clusters : List Cluster
clusters = mainnet ∷ devnet ∷ []

abbrev pub cluster_name : Cluster → String
cluster_name mainnet = "mainnet"
cluster_name devnet = "devnet"

abbrev pub cluster_beq : Cluster → Cluster → Bool
cluster_beq mainnet mainnet = true
cluster_beq devnet devnet = true
cluster_beq _ _ = false

pub cluster_beq_iff : (a b : Cluster) → (cluster_beq a b ≡ true) ↔ (a ≡ b)
cluster_beq_iff mainnet mainnet = (λ e. refl, λ e. refl)
cluster_beq_iff devnet devnet = (λ e. refl, λ e. refl)
cluster_beq_iff mainnet devnet = (λ e. absurd cc, λ e. absurd cc)
cluster_beq_iff devnet mainnet = (λ e. absurd cc, λ e. absurd cc)

instance abbrev pub cluster_eq : Eq Cluster
cluster_eq = record { beq = cluster_beq; beq_iff = cluster_beq_iff }

-- `isValidCluster`, which also narrows the type
unfoldable pub valid_cluster : String → Option Cluster
valid_cluster value =
    if value == "mainnet" then some mainnet else if value == "devnet" then some devnet else none

-- `requireCluster`; `none` is the error that it throws
unfoldable pub require_cluster : String → Option Cluster
unfolding valid_cluster
require_cluster value = valid_cluster value
