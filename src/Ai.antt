-- ===== src/Ai.antt =====
-- The package packages/ai: what crawls web sites and what counts the tokens of a model call.
pub mod Pricing
pub mod Limit
pub mod Ssrf
pub mod Crawl
pub mod Tokens
