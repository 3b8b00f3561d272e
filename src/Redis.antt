-- ===== src/Redis.antt =====
-- redis: the cache and its client, the service that degrades when the server fails, and the
-- publish/subscribe service.
pub mod Client
pub mod Scripts
pub mod Service
pub mod Memory
pub mod PubSub
mod Tests
