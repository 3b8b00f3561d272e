-- ===== src/Billing.antt =====
-- modules/billing: prepaid credits, a free daily quota, and the payment orders that buy credits.
pub mod Entities
pub mod Quota
pub mod Payment
pub mod History
mod Tests
