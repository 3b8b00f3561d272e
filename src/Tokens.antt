-- ===== src/Tokens.antt =====
-- modules/tokens: live prices, the rooms of the socket gateway, holder tracking and token sync.
pub mod Rooms
pub mod Sync
pub mod Holders
pub mod Ohlc
pub mod Prices
pub mod HolderTracking
mod Tests
