-- ===== src/Cluster/Channels.antt =====
-- redis/channels.ts: the names of the Redis channels, one for each event and network.
use solsight_api.Prelude.{String, ◌≡◌, refl, Bool, Option, some, any, ◌==◌, string_eq}
use solsight_api.Prelude.Text.{split, last, ◌⊕◌}
use solsight_api.Cluster.{Cluster, mainnet, devnet, clusters, cluster_name, require_cluster}

-- The keys of `REDIS_CHANNELS`
pub data Topic : Type 0 where
  trade_events holder_updates price_updates holder_responses payment_transfers : Topic

abbrev pub topic_name : Topic → String
topic_name trade_events = "trade_events"
topic_name holder_updates = "holder_updates"
topic_name price_updates = "price_updates"
topic_name holder_responses = "holder_responses"
topic_name payment_transfers = "payment_transfers"

unfoldable pub redis_channel : Topic → Cluster → String
redis_channel topic network = "solsight:" ⊕ topic_name topic ⊕ ":" ⊕ cluster_name network

-- `isTradeEventChannel`
unfoldable pub is_trade_event_channel : String → Bool
unfolding redis_channel
is_trade_event_channel channel_name =
    any (λ c. redis_channel trade_events c == channel_name) clusters

-- `clusterFromChannel`: the part behind the last colon; `none` is the error that it throws
unfoldable pub cluster_from_channel : String → Option Cluster
unfolding require_cluster
cluster_from_channel channel_name = require_cluster (last "" (split b':' channel_name))

-- The network of an event is read back from any channel that carries it.
pub cluster_from_channel-redis_channel :
    (topic : Topic) (network : Cluster)
    → cluster_from_channel (redis_channel topic network) ≡ some network
unfolding cluster_from_channel redis_channel split
cluster_from_channel-redis_channel trade_events mainnet = refl
cluster_from_channel-redis_channel trade_events devnet = refl
cluster_from_channel-redis_channel holder_updates mainnet = refl
cluster_from_channel-redis_channel holder_updates devnet = refl
cluster_from_channel-redis_channel price_updates mainnet = refl
cluster_from_channel-redis_channel price_updates devnet = refl
cluster_from_channel-redis_channel holder_responses mainnet = refl
cluster_from_channel-redis_channel holder_responses devnet = refl
cluster_from_channel-redis_channel payment_transfers mainnet = refl
cluster_from_channel-redis_channel payment_transfers devnet = refl
