-- ===== src/Alerting.antt =====
-- internal/alerting: the pure state machine, the service around it, and their properties.
pub mod Engine
pub mod Table
pub mod Escalation
pub mod Service
pub mod DedupKey
pub mod Redelivery
pub mod Settling
pub mod Delivery
pub mod History
pub mod Tracking
pub mod Retry
pub mod Current
pub mod Outage
pub mod Invariant
