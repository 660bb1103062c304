-- ===== src/Tests/Notifier.antt =====
-- The theorems on internal/notify, at concrete values.
use pulse_pager.Prelude.{
  ℕ, ◌≡◌, refl, true, false, ◌&&◌, Option, none, some, List, [], ◌∷◌, ◌++◌, arith, String, str_eq,
  any, ◌==◌, length, ◌≤◌, keep_where, find, format_int, if◌then◌else◌,
}
use pulse_pager.Store.Db.{works, lost, ok, err, unavailable, Link}
use pulse_pager.Domain.{minute}
use pulse_pager.Alerting.Engine.{NotifyEventType}
use pulse_pager.Alerting.Service.{NotifyMessage, emit}
use pulse_pager.Notifier.Config.{Config, stamp_channel_id, channel_id_from_cfg}
use pulse_pager.Notifier.Channels.{
  Channel, Event, Net, Recorded, Average, dispatch, build_event, stamp, send_with_retry,
}
use pulse_pager.Notifier.Interleaving.{Shuffle, Interleaved}
use pulse_pager.Notifier.Attempts.{
  AreRetries, IsCalm, reached, last_or, send_with_retry-AreRetries, send_with_retry-reached,
}
use pulse_pager.Notifier.OrgWebhooks.{
  OrgWebhook, OrgWebhookEvent, Web, WebhookStatus, Libraries, subscribes, org_event_types,
}
use pulse_pager.Notifier.PostCounts.{is_post}
use pulse_pager.Notifier.DeliveryRows.{is_row_of, row_telling, dispatch-row_telling}
use pulse_pager.Notifier.Service.{
  is_held, redis_key, State, Env, dedup, dedup_id_of, handle, get_channels_for_monitor,
  set_if_absent, claim_first, claim_notify_dedup,
}
use pulse_pager.Notifier.Once.{Step, is_claimed, is_noisy, times_heard, times_heard_once}
use pulse_pager.Notifier.Lost.{load_failure_loses, claim_failure_loses}
use pulse_pager.Notifier.Posted.{IsOpen, handle-posts}
use pulse_pager.Notifier.Apart.{emit-unsuppressed}
use pulse_pager.Tests.{web_monitor, failed_check, fresh_db, env_of, noon, cert_incident}

abbrev no_config : Config
no_config = λ key. none

-- The third send of channel 4 is taken, and none of channel 5.
abbrev answer : ℕ → ℕ → Option String
answer id attempt = if id == 4 && attempt == 3 then none else some "HTTP 503"

abbrev in_turn : List (List Recorded) → List Recorded
in_turn [] = []
in_turn (t ∷ ts) = t ++ in_turn ts

append-Shuffle : (xs ys : List Recorded) → Shuffle xs ys (xs ++ ys)
append-Shuffle [] [] = Shuffle.done
append-Shuffle [] (y ∷ ys) = Shuffle.from_right (append-Shuffle [] ys)
append-Shuffle (x ∷ xs) ys = Shuffle.from_left (append-Shuffle xs ys)

in_turn-Interleaved : (ts : List (List Recorded)) → Interleaved ts (in_turn ts)
in_turn-Interleaved [] = Interleaved.over
in_turn-Interleaved (t ∷ ts) =
    Interleaved.and (in_turn-Interleaved ts) (append-Shuffle t (in_turn ts))

abbrev net : Net
net = record {
  provides = λ type. str_eq type "slack";
  cancelled = λ id attempt. false;
  sends = λ ev id cfg attempt. answer id attempt;
  sleeps = λ id attempt. true;
  max_retries = 3;
  avg_latency = Average.unwired;
  merge = in_turn;
  records = λ id. works;
  now = noon;
}

abbrev channel : ℕ → Channel
channel id = record {
  id = id;
  org_id = 7;
  name = "ops";
  type = "slack";
  config = no_config;
  enabled = true;
}

net-IsCalm : IsCalm net (stamp (channel 4))
net-IsCalm = record { uncancelled = λ k. refl; slept = λ k. refl }

abbrev first_bytes : List ℕ → List ℕ
first_bytes bytes = b'h' ∷ bytes

abbrev lib : Libraries
lib = record {
  sha256_hex = first_bytes;
  hmac_sha256_hex = λ secret text. secret ++ text;
  rfc3339 = format_int;
  marshal = λ envelope. some (b'{' ∷ b'}' ∷ []);
}

-- The first POST of each type is refused.
abbrev web : Web
web = record {
  max_attempts = 4;
  budget = minute;
  has_backoff = true;
  cancelled = λ id et attempt. false;
  clock = λ id et attempt. noon;
  signs_at = λ id et attempt. noon;
  posts = λ id et attempt. if attempt == 1 then some "HTTP 500" else none;
  sleeps = λ id et attempt. true;
  context_error = "context canceled";
  budget_error = "retry budget of 1m0s elapsed since the event";
  records = λ id et. works;
  now = noon;
}

abbrev hook : OrgWebhook
hook = record {
  id = 2;
  org_id = 7;
  url = "https://example.com/hook";
  signing_secret = b's' ∷ [];
  enabled = true;
  events = OrgWebhookEvent.incident_opened ∷ [];
  created_by = none;
  created_at = 0;
  updated_at = 0;
  last_delivery_at = none;
  last_status = WebhookStatus.unset;
  last_error = none;
}

abbrev message : ℕ → NotifyMessage
message incident_id = record {
  org_id = 7;
  monitor_id = 1;
  incident_id = incident_id;
  event_type = NotifyEventType.down;
  dedup_key = b'k' ∷ incident_id ∷ [];
  monitor_name = "front page";
  monitor_url = "https://example.com";
  monitor_method = "GET";
  incident_started_at = noon;
  incident_ended_at = none;
  duration_seconds = none;
  check = failed_check;
  channel_ids = 4 ∷ [];
  regions_observed = [];
  sent_at = noon;
}

abbrev fresh_state : State
fresh_state = record {
  keys = [];
  claims = [];
  monitors = fresh_db.monitors;
  channels = channel 4 ∷ channel 5 ∷ [];
  webhooks = hook ∷ [];
  deliveries = [];
}

abbrev env_with : Link → Link → Env
env_with claims loads = record {
  has_cache = true;
  has_webhooks = true;
  sets = works;
  claims = claims;
  loads_channels = loads;
  loads_webhooks = works;
  now = noon;
  net = net;
  web = web;
}

abbrev event : Event
event = build_event (message 3) noon

send_with_retry-AreRetries_example :
    AreRetries 4 1 (send_with_retry net event (stamp (channel 4)))
    × (length (send_with_retry net event (stamp (channel 4))) ≤ 3)
unfolding stamp_channel_id channel_id_from_cfg
send_with_retry-AreRetries_example = send_with_retry-AreRetries net event (stamp (channel 4)) refl

send_with_retry-reached_example :
    (reached (last_or none (send_with_retry net event (stamp (channel 4)))) ≡ true)
    × (reached (last_or none (send_with_retry net event (stamp (channel 4)))) ≡ false
        → length (send_with_retry net event (stamp (channel 4))) ≡ 3)
send_with_retry-reached_example =
    send_with_retry-reached net event (stamp (channel 4)) net-IsCalm refl

dispatch-row_telling_example :
    find (is_row_of (message 3) 4) (dispatch net (message 3) (channel 5 ∷ channel 4 ∷ []) []).1
    ≡ some (row_telling (message 3) noon 4 (record { attempts = 3; error = none }))
unfolding send_with_retry
dispatch-row_telling_example =
    dispatch-row_telling net (message 3) (channel 5 ∷ []) [] (channel 4) []
      (record { attempts = 3; error = none }) in_turn-Interleaved ((ground arith, tt), (tt, tt))
      refl refl (λ e. ground (arith, e))

times_heard_once_example :
    times_heard lib 7
      (b'k' ∷ 3 ∷ [])
      (Step.delivery (env_with works works) (message 3)
        ∷ Step.change [] fresh_db.monitors [] [] []
        ∷ Step.delivery (env_with works works) (message 3)
        ∷ [])
      fresh_state
    ≤ 1
times_heard_once_example =
    times_heard_once lib 7 (b'k' ∷ 3 ∷ [])
      (Step.delivery (env_with works works) (message 3)
        ∷ Step.change [] fresh_db.monitors [] [] []
        ∷ Step.delivery (env_with works works) (message 3)
        ∷ [])
      fresh_state

load_failure_loses_example :
    let h = handle lib (env_with works lost) (some (message 3)) fresh_state in
    (h.returned ≡ err unavailable)
    × (is_noisy h ≡ false)
    × (times_heard lib 7
          (dedup_id_of lib (message 3))
          (Step.delivery (env_with works works) (message 3) ∷ [])
          h.state
        ≡ 0)
unfolding dedup set_if_absent claim_first claim_notify_dedup
load_failure_loses_example =
    load_failure_loses lib (env_with works lost) (message 3) fresh_state
      (Step.delivery (env_with works works) (message 3) ∷ []) refl (λ e. ground (arith, e))

claim_failure_loses_example :
    let h = handle lib (env_with lost works) (some (message 3)) fresh_state in
    let again = handle lib (env_with works works) (some (message 3)) h.state in
    (h.returned ≡ err unavailable)
    × (is_noisy h ≡ false)
    × (again.returned ≡ ok tt)
    × (is_noisy again ≡ false)
claim_failure_loses_example =
    claim_failure_loses lib (env_with lost works) (env_with works works) (message 3) fresh_state
      refl refl refl refl refl refl (omega arith)

hook-IsOpen : IsOpen lib web (message 3) hook OrgWebhookEvent.incident_opened
hook-IsOpen = record {
  raw = b'{' ∷ b'}' ∷ [];
  marshalled = refl;
  some_attempt = omega arith;
  uncancelled = refl;
  timely = refl;
}

handle-posts_example :
    any
      (is_post 2 OrgWebhookEvent.incident_opened)
      (handle lib (env_with works works) (some (message 3)) fresh_state).posted
    ≡ true
unfolding get_channels_for_monitor keep_where subscribes org_event_types
handle-posts_example =
    handle-posts lib (env_with works works) (message 3) fresh_state (channel 4 ∷ []) [] [] hook
      OrgWebhookEvent.incident_opened refl refl refl refl refl refl refl refl refl refl hook-IsOpen

-- What alerting emits for an incident with this id.
abbrev emitted : ℕ → Option NotifyMessage
emitted id =
    emit first_bytes (env_of works true) web_monitor (record cert_incident { id = id }) failed_check
      NotifyEventType.down none

abbrev or_other : Option NotifyMessage → NotifyMessage
or_other none = message 0
or_other (some msg) = msg

emitted-some : (id : ℕ) → emitted id ≡ some (or_other (emitted id))
unfolding emit
emitted-some id = refl

emit-unsuppressed_example :
    let after =
      (handle lib (env_with works works) (some (or_other (emitted 3))) fresh_state).state in
    (is_claimed (or_other (emitted 4)).org_id (dedup_id_of lib (or_other (emitted 4))) after
      ≡ false)
    × (any (is_held (redis_key (dedup_id_of lib (or_other (emitted 4)))) 1) after.keys ≡ false)
emit-unsuppressed_example =
    emit-unsuppressed first_bytes lib (env_of works true) (env_of works true) web_monitor
      web_monitor (record cert_incident { id = 3 }) (record cert_incident { id = 4 }) failed_check
      failed_check NotifyEventType.down NotifyEventType.down none none (or_other (emitted 3))
      (or_other (emitted 4)) (env_with works works) 1 fresh_state (emitted-some 3) (emitted-some 4)
      (λ text e. ground (arith, e)) (λ e. ground (arith, e)) (λ e. ground (arith, e.0)) refl refl
