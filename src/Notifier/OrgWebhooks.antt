-- ===== src/Notifier/OrgWebhooks.antt =====
-- internal/notify/webhookdeliver.go, with ListEnabledWebhooks and RecordWebhookDelivery of
-- internal/store/webhooks.go: one notification to the webhooks of an org. A Web says what each POST
-- answers, when the context is done and what the clock shows. crypto/sha256, crypto/hmac and
-- encoding/json are the parameters `sha256_hex`, `hmac_sha256_hex` and `marshal`, and time.Format
-- with the layout of RFC 3339 is `rfc3339`. Logs and clients are left out.
use pulse_pager.Prelude.{
  ℕ, ℤ, zero, suc, ◌+◌, ◌-◌, ◌/◌, String, str_eq, Bool, true, false, not, ◌&&◌, Option, none, some,
  is_some, List, [], ◌∷◌, ◌++◌, ltb, ◌==◌, any, update_where, keep_where, if◌then◌else◌, format_int,
  format_signed, sub_ℕ, map_some, codes,
}
use pulse_pager.Domain.{Time, zero_time, second}
use pulse_pager.Store.Db.{Link, works, lost, commit_unknown}
use pulse_pager.Scheduler.{unix_epoch}
use pulse_pager.Alerting.Engine.{NotifyEventType}
use pulse_pager.Alerting.Service.{NotifyMessage}

-- domain.OrgWebhookEvent
pub data OrgWebhookEvent : Type 0 where
  monitor_down monitor_recovery incident_opened incident_closed : OrgWebhookEvent

abbrev pub same_event : OrgWebhookEvent → OrgWebhookEvent → Bool
same_event OrgWebhookEvent.monitor_down OrgWebhookEvent.monitor_down = true
same_event OrgWebhookEvent.monitor_recovery OrgWebhookEvent.monitor_recovery = true
same_event OrgWebhookEvent.incident_opened OrgWebhookEvent.incident_opened = true
same_event OrgWebhookEvent.incident_closed OrgWebhookEvent.incident_closed = true
same_event _ _ = false

-- The text of an event type, in ASCII.
abbrev pub event_bytes : OrgWebhookEvent → List ℕ
event_bytes OrgWebhookEvent.monitor_down = codes "monitor.down"
event_bytes OrgWebhookEvent.monitor_recovery = codes "monitor.recovery"
event_bytes OrgWebhookEvent.incident_opened = codes "incident.opened"
event_bytes OrgWebhookEvent.incident_closed = codes "incident.closed"

pub data WebhookStatus : Type 0 where
  unset delivered failed : WebhookStatus

-- domain.OrgWebhook
pub record OrgWebhook : Type 0 where
  pub id : ℕ
  pub org_id : ℕ
  pub url : String
  pub signing_secret : List ℕ
  pub enabled : Bool
  pub events : List OrgWebhookEvent
  pub created_by : Option ℕ
  pub created_at : Time
  pub updated_at : Time
  pub last_delivery_at : Option Time
  pub last_status : WebhookStatus
  pub last_error : Option String

-- OrgWebhook.Subscribes
unfoldable pub subscribes : List OrgWebhookEvent → OrgWebhookEvent → Bool
subscribes [] et = true
subscribes (e ∷ es) et = any (λ x. same_event x et) (e ∷ es)

unfoldable pub org_event_types : NotifyEventType → List OrgWebhookEvent
org_event_types NotifyEventType.down =
    OrgWebhookEvent.monitor_down ∷ OrgWebhookEvent.incident_opened ∷ []
org_event_types NotifyEventType.recovery =
    OrgWebhookEvent.monitor_recovery ∷ OrgWebhookEvent.incident_closed ∷ []

-- orgEventEnvelope, with its data, monitor and incident objects
pub record OrgEventEnvelope : Type 0 where
  pub event_id : List ℕ
  pub event : OrgWebhookEvent
  pub org_id : List ℕ
  pub occurred_at : List ℕ
  pub monitor_id : List ℕ
  pub monitor_name : String
  pub monitor_url : String
  pub monitor_method : String
  pub incident_id : List ℕ
  pub started_at : List ℕ
  pub ended_at : Option (List ℕ)
  pub duration_seconds : Option ℤ

-- One POST: the webhook and the attempt, and what the request carries.
pub record Post : Type 0 where
  pub hook_id : ℕ
  pub attempt : ℕ
  pub at : Time
  pub url : String
  pub timestamp : List ℕ
  pub signature : List ℕ
  pub event : OrgWebhookEvent
  pub event_id : List ℕ
  pub body : List ℕ

-- The tuning of orgWebhookConfig, and the world, by the webhook, the event type and the attempt.
pub record Web : Type 0 where
  pub max_attempts : ℕ
  pub budget : ℕ
  pub has_backoff : Bool
  pub cancelled : ℕ → OrgWebhookEvent → ℕ → Bool
  -- the time at the budget check, and the later one that postSigned signs
  pub clock : ℕ → OrgWebhookEvent → ℕ → Time
  pub signs_at : ℕ → OrgWebhookEvent → ℕ → Time
  pub posts : ℕ → OrgWebhookEvent → ℕ → Option String
  pub sleeps : ℕ → OrgWebhookEvent → ℕ → Bool
  -- the texts of the errors
  pub context_error : String
  pub budget_error : String
  -- how RecordWebhookDelivery goes, by the webhook and the event type
  pub records : ℕ → OrgWebhookEvent → Link
  pub now : Time

abbrev pub take : ℕ → List ℕ → List ℕ
take zero xs = []
take (suc n) [] = []
take (suc n) (x ∷ xs) = x ∷ take n xs

-- The text that orgEventID hashes.
unfoldable pub event_id_input : ℕ → OrgWebhookEvent → List ℕ
event_id_input incident_id et = format_int incident_id ++ (0 ∷ event_bytes et)

-- Has the event aged past the budget at the time `now`?
abbrev pub is_past_budget : Web → NotifyMessage → Time → Bool
is_past_budget web ev now =
    ltb 0 web.budget && not (ev.sent_at == zero_time) && ltb web.budget (now - ev.sent_at)

-- One (webhook, event type): its POSTs, and lastErr.
abbrev pub Delivered : Type 0
Delivered = List Post × Option String

-- ListEnabledWebhooks, on a table in the order of its ids
abbrev pub list_enabled_webhooks : ℕ → List OrgWebhook → List OrgWebhook
list_enabled_webhooks org_id hooks = keep_where (λ h. h.org_id == org_id && h.enabled) hooks

abbrev pub is_hook : ℕ → ℕ → OrgWebhook → Bool
is_hook org_id id h = h.id == id && h.org_id == org_id

-- The empty text is stored as NULL.
abbrev pub null_if_empty : Option String → Option String
null_if_empty none = none
null_if_empty (some e) = if str_eq e "" then none else some e

abbrev pub written : WebhookStatus → Option String → Time → OrgWebhook → OrgWebhook
written status error now h = record h {
  last_delivery_at = some now;
  last_status = status;
  last_error = null_if_empty error;
}

-- RecordWebhookDelivery. Its error is only logged.
unfoldable pub record_webhook_delivery :
    Link → ℕ → ℕ → WebhookStatus → Option String → Time → List OrgWebhook → List OrgWebhook
record_webhook_delivery link org_id id status error now hooks = elim link [
  | lost ↦ hooks
  | works ↦ update_where (is_hook org_id id) (written status error now) hooks
  | commit_unknown ↦ update_where (is_hook org_id id) (written status error now) hooks
]

-- The end of deliverOne: the outcome on the webhook's row.
unfoldable pub record_last :
    Web → OrgWebhook → OrgWebhookEvent → Option String → List OrgWebhook → List OrgWebhook
unfolding record_webhook_delivery
record_last web hook et last_err rows =
    record_webhook_delivery (web.records hook.id et) hook.org_id hook.id
      (if is_some last_err then WebhookStatus.failed else WebhookStatus.delivered) last_err web.now
      rows

-- The functions of other packages.
pub record Libraries : Type 0 where
  pub sha256_hex : List ℕ → List ℕ
  pub hmac_sha256_hex : List ℕ → List ℕ → List ℕ
  pub rfc3339 : Time → List ℕ
  pub marshal : OrgEventEnvelope → Option (List ℕ)

module _ (lib : Libraries) where
  -- orgEventID
  unfoldable pub org_event_id : ℕ → OrgWebhookEvent → List ℕ
  unfolding event_id_input
  org_event_id incident_id et =
      codes "evt_" ++ take 32 (lib.sha256_hex (event_id_input incident_id et))

  unfoldable pub build_org_envelope : NotifyMessage → OrgWebhookEvent → Time → OrgEventEnvelope
  unfolding org_event_id
  build_org_envelope ev et now = record {
    event_id = org_event_id ev.incident_id et;
    event = et;
    org_id = codes "org_" ++ format_int ev.org_id;
    occurred_at = lib.rfc3339 (if ev.sent_at == zero_time then now else ev.sent_at);
    monitor_id = codes "mon_" ++ format_int ev.monitor_id;
    monitor_name = ev.monitor_name;
    monitor_url = ev.monitor_url;
    monitor_method = ev.monitor_method;
    incident_id = codes "inc_" ++ format_int ev.incident_id;
    started_at = lib.rfc3339 ev.incident_started_at;
    ended_at = map_some lib.rfc3339 ev.incident_ended_at;
    duration_seconds = ev.duration_seconds;
  }

  unfoldable pub sign_body : List ℕ → List ℕ → List ℕ → List ℕ
  sign_body secret ts raw = lib.hmac_sha256_hex secret (ts ++ (b'.' ∷ raw))

  -- postSigned: the request
  unfoldable pub post_signed : OrgWebhook → OrgWebhookEvent → ℕ → Time → List ℕ → List ℕ → Post
  unfolding sign_body
  post_signed hook et attempt now raw event_id =
      let ts = format_signed (sub_ℕ (now / second) unix_epoch) in
      record {
        hook_id = hook.id;
        attempt = attempt;
        at = now;
        url = hook.url;
        timestamp = ts;
        signature = sign_body hook.signing_secret ts raw;
        event = et;
        event_id = event_id;
        body = raw;
      }

  -- The loop of deliverOne, with `more` attempts to go.
  unfoldable pub post_loop :
      Web
      → NotifyMessage
      → OrgWebhook
      → OrgWebhookEvent
      → List ℕ
      → ℕ
      → ℕ
      → Option String
      → Delivered
  unfolding post_signed org_event_id
  post_loop web ev hook et raw zero attempt last_err = ([], last_err)
  post_loop web ev hook et raw (suc more) attempt last_err =
      let now = web.clock hook.id et attempt in
      let answer = web.posts hook.id et attempt in
      let signed_at = web.signs_at hook.id et attempt in
      let sent = post_signed hook et attempt signed_at raw (org_event_id ev.incident_id et) in
      let rest = post_loop web ev hook et raw more (attempt + 1) answer in
      if web.cancelled hook.id et attempt
      then ([], some web.context_error)
      else if is_past_budget web ev now
      then ([], some web.budget_error)
      else if not (is_some answer)
      then (sent ∷ [], none)
      else if ltb attempt web.max_attempts && web.has_backoff && not (web.sleeps hook.id et attempt)
      then (sent ∷ [], some web.context_error)
      else (sent ∷ rest.0, rest.1)

  -- deliverOne: its POSTs, and the table after it.
  unfoldable pub deliver_one :
      Web
      → NotifyMessage
      → OrgWebhook
      → OrgWebhookEvent
      → List OrgWebhook
      → List Post × List OrgWebhook
  unfolding build_org_envelope post_loop record_last
  deliver_one web ev hook et rows = elim (lib.marshal (build_org_envelope ev et web.now)) [
    | none ↦ ([], rows)
    | some raw ↦
        let (posts, last_err) = post_loop web ev hook et raw web.max_attempts 1 none in
        (posts, record_last web hook et last_err rows)
  ]

  -- The inner loop of deliverOrgWebhooks.
  unfoldable pub deliver_types :
      Web
      → NotifyMessage
      → OrgWebhook
      → List OrgWebhookEvent
      → List OrgWebhook
      → List Post × List OrgWebhook
  unfolding deliver_one subscribes
  deliver_types web ev hook [] rows = ([], rows)
  deliver_types web ev hook (et ∷ ets) rows =
      let (posts, written) = deliver_one web ev hook et rows in
      let wanted = subscribes hook.events et in
      let (later, end) = deliver_types web ev hook ets (if wanted then written else rows) in
      ((if wanted then posts else []) ++ later, end)

  -- deliverOrgWebhooks, on webhooks that have been loaded.
  unfoldable pub deliver_org_webhooks :
      Web → NotifyMessage → List OrgWebhook → List OrgWebhook → List Post × List OrgWebhook
  unfolding deliver_types org_event_types
  deliver_org_webhooks web ev [] rows = ([], rows)
  deliver_org_webhooks web ev (hook ∷ hooks) rows =
      let (posts, written) = deliver_types web ev hook (org_event_types ev.event_type) rows in
      let (later, end) =
        deliver_org_webhooks web ev hooks (if hook.enabled then written else rows) in
      ((if hook.enabled then posts else []) ++ later, end)
