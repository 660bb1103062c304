-- ===== src/Notifier.antt =====
-- internal/notify: what becomes of a notification that alerting has emitted.
pub mod Config
pub mod Channels
pub mod Interleaving
pub mod Attempts
pub mod Deliveries
pub mod DeliveryRows
pub mod OrgWebhooks
pub mod Posts
pub mod HookRows
pub mod PostCounts
pub mod Service
pub mod Once
pub mod Lost
pub mod First
pub mod Reaches
pub mod Posted
pub mod Apart
