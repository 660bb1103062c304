-- ===== src/Notifier/HookRows.antt =====
-- internal/notify/webhookdeliver.go and internal/store/webhooks.go: what the row of a webhook says
-- after a notification was posted to it.
use pulse_pager.Prelude.{◌≡◌, Bool, false, ◌&&◌, some, is_some, if◌then◌else◌}
use pulse_pager.Domain.{Time}
use pulse_pager.Notifier.OrgWebhooks.{OrgWebhook, WebhookStatus}

-- The row says that the notification was taken, or that it was not.
pub record SaysOutcome (taken : Bool) (now : Time) (h : OrgWebhook) : Type 0 where
  pub dated : h.last_delivery_at ≡ some now
  pub status : h.last_status ≡ (if taken then WebhookStatus.delivered else WebhookStatus.failed)
  pub no_error : taken && is_some h.last_error ≡ false
