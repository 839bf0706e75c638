-- ===== src/Billing.antt =====
-- Billing (apps/api/src/billing): plans and quotas, the usage ledger, what a workspace is entitled
-- to, the gate before every metered path, and the Lemon Squeezy webhook.
pub mod Calendar
pub mod Plans
pub mod Ledger
pub mod Store
pub mod Entitlement
pub mod Gate
pub mod Signature
pub mod Upsert
pub mod Webhook
