-- ===== src/Matcher.antt =====
-- exchange/matcher: the single-writer matcher over the order book, and its payload codec.
pub mod Types
pub mod State
pub mod Batch
pub mod Flow
pub mod Process
pub mod Handlers
pub mod Loop
pub mod Dispatch
pub mod Protocol
pub mod Run
