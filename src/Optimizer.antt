-- ===== src/Optimizer.antt =====
-- gateway/middleware/response_optimizer.py: the tree transformations, the negotiation of codings,
-- and the middleware itself, each in a module below.
pub mod Strip
pub mod Skeleton
pub mod Codings
pub mod Modes
pub mod Dispatch
pub mod Headers
pub mod Outcomes
mod Tests
