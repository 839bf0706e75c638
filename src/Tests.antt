-- ===== src/Tests.antt =====
-- The properties at concrete inputs.
mod Pricing
mod Ledger
mod Billing
mod Webhook
mod Procurement
mod Accounts
mod Cursor
mod Compare
mod Ai
mod Intake
mod Limits
