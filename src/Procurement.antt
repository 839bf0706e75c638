-- ===== src/Procurement.antt =====
-- The three-way comparison of a purchase order, an invoice and its goods receipts, and what people
-- decide about its findings (apps/api/src/procurement/comparison.service.ts).
pub mod Engine
pub mod Lines
pub mod Group
pub mod Ladder
pub mod Wording
pub mod Reason
pub mod PriceGroups
pub mod Flags
pub mod Decisions
pub mod Contract
pub mod Compare
pub mod Documents
pub mod Review
pub mod Queue
pub mod Columns
