-- ===== src/Notifier/PostCounts.antt =====
-- internal/notify/webhookdeliver.go: how often a notification is posted to a webhook.
use pulse_pager.Prelude.{
  ℕ, ◌+◌, ◌≡◌, Bool, false, ◌&&◌, List, [], ◌∷◌, ◌==◌, All, count_where, if◌then◌else◌,
}
use pulse_pager.Alerting.Service.{NotifyMessage}
use pulse_pager.Notifier.OrgWebhooks.{OrgWebhook, OrgWebhookEvent, Post, Web, Libraries, same_event}

-- Is it a POST of the event type to the webhook?
abbrev pub is_post : ℕ → OrgWebhookEvent → Post → Bool
is_post id et p = p.hook_id == id && same_event p.event et

-- No two webhooks have one id.
abbrev pub HaveOwnIds : List OrgWebhook → Type 0
HaveOwnIds [] = Unit
HaveOwnIds (h ∷ hs) = All (λ c. (c.id == h.id) ≡ false) hs × HaveOwnIds hs

-- How many POSTs of the type a list of types, or of webhooks, may give.
room_of_types : ℕ → OrgWebhookEvent → List OrgWebhookEvent → ℕ
room_of_types most et [] = 0
room_of_types most et (x ∷ xs) = (if same_event x et then most else 0) + room_of_types most et xs

room_of_hooks : ℕ → ℕ → List OrgWebhook → ℕ
room_of_hooks most id [] = 0
room_of_hooks most id (h ∷ hs) = (if h.id == id then most else 0) + room_of_hooks most id hs

module _ (lib : Libraries) (web : Web) (ev : NotifyMessage) (id : ℕ) (et : OrgWebhookEvent) where
  abbrev count : List Post → ℕ
  count posts = count_where (is_post id et) posts
