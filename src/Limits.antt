-- ===== src/Limits.antt =====
-- The limits on chat and refine requests and on tokens (apps/api/src/limits).
pub mod Rate
pub mod Usage
