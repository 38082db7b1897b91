-- ===== src/Safety.antt =====
-- internal/safety and internal/requestmeta: two-step confirmation of every mutation.
pub mod Caller
pub mod Store
pub mod Requests
pub mod Decorator
pub mod Serve
mod Tests
