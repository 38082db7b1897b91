-- ===== src/SecurityAudit.antt =====
-- internal/securityaudit: the security posture audit.
mod Tests
pub mod Facts
pub mod NetworkFacts
pub mod Report
pub mod Score
pub mod Checks
pub mod Suppressions
pub mod Rules
pub mod Correlate
pub mod Build
pub mod Engine
