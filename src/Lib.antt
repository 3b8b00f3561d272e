-- ===== src/Lib.antt =====
-- The Solsight API: a back end for a Solana analytics service. This library models the parts of it
-- that keep state and money, and proves what makes them correct. Paths are from the repository's
-- root.
--
-- The parts and how they interact
--   * Cluster, Cluster.Channels: the two networks and the names of the Redis channels
--     (src/common/cluster/cluster.types.ts, src/redis/channels.ts).
--   * Redis.Client is the interface of the Redis client and of JSON, which the services below it use;
--     Redis.Service is src/redis/services/redis.service.ts, one function per method, with the
--     fallback that each method has for a missing client and for an error. Redis.PubSub is
--     src/redis/services/pubsub.service.ts: maps of handlers and the delivery of messages. A
--     small server in Redis.Memory shows that the interface's laws can hold.
--   * Events is src/events/event-stream-dispatcher.service.ts, which at start finds the handlers of
--     events and subscribes each channel through Redis.PubSub.
--   * Billing.Entities, Billing.Quota, Billing.Payment and Billing.History are src/modules/billing:
--     the daily free quota and paid credits (services/quota.service.ts), payment orders
--     (services/payment.service.ts), transfers that pay them (handlers/payment-transfer.handler.ts,
--     which a Redis channel feeds) and their expiry (services/payment-reconcile.service.ts).
--     History runs any sequence of calls.
--   * Tokens.Prices is the latest price of a token in Redis, with the two Lua scripts that write it
--     (src/modules/tokens/services/token-price.service.ts). The commands that the scripts call are
--     the interface Redis.Scripts, which Tokens.Prices.Server fills with a small server.
--   * Subscriptions and Subscriptions.Email are the connections of chat accounts and addresses for
--     alerts (src/modules/bot, src/modules/zalo, src/modules/email).
--   * Wallets is src/modules/wallets/services/wallets.service.ts, and Wallets.Login the sign-in with
--     a signed nonce (src/modules/auth/services/auth.service.ts and
--     src/modules/auth/utils/solana-signature.util.ts), which writes the same table.
--   * Auth is the rest of src/modules/auth/services/auth.service.ts: sign-in with a password and with
--     Google, registration by a token that is mailed, one-time codes and the reset of a password,
--     over src/modules/auth/repositories/user.repository.ts.
--   * Tokens.Ohlc is the candles of src/modules/tokens/services/aggregation: the script of
--     ohlc-aggregation.service.ts that updates a candle, the flush of finished buckets to the
--     database, the reads, and the job of ohlc-persistor.service.ts. Tokens.Holders is
--     holder-aggregation.service.ts beside it: the buffer of holders and its flush.
--   * Tokens.Sync is src/modules/tokens/services/sync: the set of mints still to be looked up and the
--     job that empties it into the catalog.
--   * Indexer is src/modules/indexer/services/stream-consumer.service.ts: what a swap that the indexer
--     reports leaves in Redis, through Tokens.Prices, and in the tables of prices and transactions.
--   * Staking is src/modules/staking/services: staking-chain.utils.ts (Staking.Bytes, the accounts that
--     are decoded in Staking.Accounts, the rates in Staking.Rates, the builders of instructions and
--     what the history reads of them in Staking.Instructions) and staking.service.ts: the choice of
--     a validator (Staking.Fallback), the checks before a transaction is built (Staking.Building),
--     what a wallet has staked (Staking.Positions) and the copy of the chain's history
--     (Staking.History). Staking.Chain is the interface of web3.js and of the node.
--   * Notifications is src/modules/notifications/services, the list of a user's notices read by a
--     cursor; Watchlist is src/modules/watchlist, whose alerts on a wallet's transfers write notices.
--   * Tokens.Rooms and Tokens.HolderTracking are the socket rooms and the lazy tracking of holders
--     (src/modules/tokens/services/socket).
--
-- How it is modelled
--   * The database is a record of tables. `Table` in Prelude.Tables is an interface of operations and
--     laws (find, save, update_all), the section parameter of the services; Prelude.RowList fills it
--     with lists of rows with unique keys. An SQL statement is one function on the tables, whose
--     WHERE is tested on the row as it stands when the statement runs; a transaction is one step.
--   * An operation takes the state and returns its answer and the new state; what throws returns a
--     Result. A wait is a point between two steps where the state is open to others: in Redis.PubSub,
--     Tokens.HolderTracking, Tokens.Sync and the flush of Tokens.Holders. The histories of the other
--     parts run each call whole, also where it is made of several statements: what a second call does
--     between two statements of a first one is not in them.
--   * A Uint8Array is a list of bytes, and a bigint a natural number; eight bytes hold a number
--     modulo 2 ^ 64.
--   * Times are milliseconds since the epoch as natural numbers. The loop over the buckets of a range
--     in Tokens.Ohlc steps by the sum of JavaScript's doubles, which is exact below 2 ^ 53.
--     Ids and tokens that the database or the random source make are arguments.
--   * In Tokens.Ohlc prices are natural multiples of a smallest unit; in Tokens.Prices and Indexer
--     numbers are a parameter.
--   * Recursion is structural but for three loops, which run on fuel. The buckets of a time range in
--     Tokens.Ohlc get `end / interval + 2` steps, and Tokens.Ohlc.Ranges proves that the walk is over
--     by then, for times below 2 ^ 53. The addresses of stakes are cut into chunks with a step
--     for each address, which Staking.Positions.Chunks proves to be enough. A client that reads
--     notices page by page gets one step more than there are notices, and Notifications.Paging
--     proves that it is done by then and has them all.
--
-- What is not modelled
--   Controllers, logging and process lifecycle; the packages the code calls (Redis, TypeORM, web3.js,
--   the market-data and chat clients), which are parameters where a model needs them; floating-point
--   sums for display; and the services of src/modules that are not named above.
pub mod Prelude
pub mod Cluster
pub mod Redis
pub mod Billing
pub mod Tokens
pub mod Subscriptions
pub mod Wallets
pub mod Auth
pub mod Notifications
pub mod Watchlist
pub mod Events
pub mod Indexer
pub mod Staking
