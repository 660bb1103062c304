-- ===== src/Notifier/Channels.antt =====
-- internal/notify/notify.go, the Manager, with the recording provider and the dispatch of
-- internal/notify/service.go: one notification to a monitor's channels. A provider is third-party
-- I/O: a Net says what each of its sends answers, when the context is done, and in which order the
-- goroutines' sends reach the collector. Logs, metrics, spans and clients are left out. A channel
-- pointer is never nil here, since the store returns none.
use pulse_pager.Prelude.{
  ℕ, ℤ, zero, suc, ◌+◌, String, str_eq, Bool, true, false, not, ◌&&◌, Option, none, some, is_some,
  List, [], ◌∷◌, ◌++◌, map, ltb, ◌==◌, any, find, update_where, if◌then◌else◌,
}
use pulse_pager.Domain.{Time, CheckResult, zero_time}
use pulse_pager.Store.Db.{Link, works, lost, commit_unknown}
use pulse_pager.Alerting.Engine.{NotifyEventType}
use pulse_pager.Alerting.Service.{NotifyMessage}
use pulse_pager.Notifier.Config.{Config, stamp_channel_id, channel_id_from_cfg, strip_channel_id}

-- domain.Channel
pub record Channel : Type 0 where
  pub id : ℕ
  pub org_id : ℕ
  pub name : String
  pub type : String
  pub config : Config
  pub enabled : Bool

-- Event, with the fields of its monitor and its incident that buildEvent sets.
pub record Event : Type 0 where
  pub event_type : NotifyEventType
  pub monitor_id : ℕ
  pub monitor_name : String
  pub monitor_url : String
  pub monitor_method : String
  pub incident_id : ℕ
  pub incident_started_at : Time
  pub incident_ended_at : Option Time
  pub check : CheckResult
  pub duration_seconds : Option ℤ
  pub sent_at : Time
  pub org_id : ℕ
  pub avg_latency_ms : Option ℕ

-- buildEvent, at the time `now`
unfoldable pub build_event : NotifyMessage → Time → Event
build_event ev now = record {
  event_type = ev.event_type;
  monitor_id = ev.monitor_id;
  monitor_name = ev.monitor_name;
  monitor_url = ev.monitor_url;
  monitor_method = ev.monitor_method;
  incident_id = ev.incident_id;
  incident_started_at = ev.incident_started_at;
  incident_ended_at = ev.incident_ended_at;
  check = ev.check;
  duration_seconds = ev.duration_seconds;
  sent_at = if ev.sent_at == zero_time then now else ev.sent_at;
  org_id = ev.org_id;
  avg_latency_ms = none;
}

-- attemptResult
pub record AttemptResult : Type 0 where
  pub attempts : ℕ
  pub error : Option String

-- One call of collector.record: the channel's id and the result.
abbrev pub Recorded : Type 0
Recorded = ℕ × AttemptResult

-- The collector's map, the newest entry of a channel first.
abbrev pub Collector : Type 0
Collector = List Recorded

abbrev pub for_channel : ℕ → Recorded → Bool
for_channel id e = e.0 == id

unfoldable pub collector_record : Recorded → Collector → Collector
collector_record e col = e ∷ col

abbrev result_of : Option Recorded → Option AttemptResult
result_of none = none
result_of (some e) = some e.1

unfoldable pub collector_get : ℕ → Collector → Option AttemptResult
collector_get id col = result_of (find (for_channel id) col)

-- The lookup of the average latency: not wired, failed, or answered, with a value or without one.
pub data Average : Type 0 where
  unwired unknown : Average
  average : Option ℕ → Average

pub record Net : Type 0 where
  -- is there a provider for a channel type?
  pub provides : String → Bool
  -- by the channel's id and the number of the attempt
  pub cancelled : ℕ → ℕ → Bool
  pub sends : Event → ℕ → Config → ℕ → Option String
  pub sleeps : ℕ → ℕ → Bool
  pub max_retries : ℕ
  pub avg_latency : Average
  -- the order in which the goroutines' records reach the collector
  pub merge : List (List Recorded) → List Recorded
  -- how RecordDelivery goes, by the channel's id
  pub records : ℕ → Link
  pub now : Time

-- recordingProvider.Send, whose counter holds `count`.
unfoldable pub recording_send : Net → Event → Channel → ℕ → ℕ → Recorded
recording_send net ev ch attempt count = (
  channel_id_from_cfg ch.config,
  record { attempts = count + 1; error = net.sends ev ch.id (strip_channel_id ch.config) attempt },
)

-- The loop of sendWithRetry, with `left` attempts to go: what its sends record.
unfoldable pub send_loop : Net → Event → Channel → ℕ → ℕ → ℕ → List Recorded
unfolding recording_send
send_loop net ev ch zero attempt count = []
send_loop net ev ch (suc left) attempt count =
    let sent = recording_send net ev ch attempt count in
    let rest = send_loop net ev ch left (attempt + 1) (count + 1) in
    if net.cancelled ch.id attempt
    then []
    else if not (is_some sent.1.error)
    then sent ∷ []
    else if ltb attempt net.max_retries && not (net.sleeps ch.id attempt)
    then sent ∷ []
    else sent ∷ rest

-- sendWithRetry, from the first attempt on
unfoldable pub send_with_retry : Net → Event → Channel → List Recorded
unfolding send_loop
send_with_retry net ev ch =
    if net.provides ch.type then send_loop net ev ch net.max_retries 1 0 else []

-- Manager.Dispatch: what each goroutine records.
unfoldable pub goroutines : Net → Event → List Channel → List (List Recorded)
goroutines net ev [] = []
goroutines net ev (ch ∷ chs) =
    let rest = goroutines net ev chs in
    if ch.enabled then send_with_retry net ev ch ∷ rest else rest

unfoldable pub collect : List Recorded → Collector → Collector
unfolding collector_record
collect [] col = col
collect (e ∷ es) col = collect es (collector_record e col)

pub data DeliveryStatus : Type 0 where
  delivered failed : DeliveryStatus

-- A row of notify_deliveries.
pub record Delivery : Type 0 where
  pub org_id : ℕ
  pub incident_id : ℕ
  pub channel_id : ℕ
  pub event_type : NotifyEventType
  pub status : DeliveryStatus
  pub attempts : ℕ
  pub last_error : Option String
  pub delivered_at : Time

abbrev pub same_kind : NotifyEventType → NotifyEventType → Bool
same_kind NotifyEventType.down NotifyEventType.down = true
same_kind NotifyEventType.recovery NotifyEventType.recovery = true
same_kind _ _ = false

-- The key of ON CONFLICT (org_id, incident_id, channel_id, event_type).
abbrev pub same_delivery : Delivery → Delivery → Bool
same_delivery a b =
    a.org_id == b.org_id
    && a.incident_id == b.incident_id
    && a.channel_id == b.channel_id
    && same_kind a.event_type b.event_type

unfoldable pub upsert_delivery : Delivery → List Delivery → List Delivery
upsert_delivery d rows =
    if any (same_delivery d) rows
    then update_where (same_delivery d) (λ old. d) rows
    else rows ++ d ∷ []

-- RecordDelivery. Its error is only logged.
unfoldable pub record_delivery : Link → Delivery → List Delivery → List Delivery
unfolding upsert_delivery
record_delivery works d rows = upsert_delivery d rows
record_delivery lost d rows = rows
record_delivery commit_unknown d rows = upsert_delivery d rows

-- The empty text is stored as NULL.
abbrev pub text_or_null : Option String → Option String
text_or_null none = none
text_or_null (some e) = if str_eq e "" then none else some e

abbrev pub delivery_of : NotifyMessage → Time → Channel → AttemptResult → Delivery
delivery_of ev now ch res = record {
  org_id = ev.org_id;
  incident_id = ev.incident_id;
  channel_id = ch.id;
  event_type = ev.event_type;
  status = if is_some res.error then DeliveryStatus.failed else DeliveryStatus.delivered;
  attempts = res.attempts;
  last_error = text_or_null res.error;
  delivered_at = now;
}

-- One round of the second loop of dispatch, for a channel that is enabled.
unfoldable pub record_outcome :
    Net → NotifyMessage → Channel → Option AttemptResult → List Delivery → List Delivery
unfolding record_delivery
record_outcome net ev ch none rows = rows
record_outcome net ev ch (some res) rows =
    record_delivery (net.records ch.id) (delivery_of ev net.now ch res) rows

-- The second loop of dispatch, with the collector's get.
unfoldable pub record_outcomes :
    Net → NotifyMessage → (ℕ → Option AttemptResult) → List Channel → List Delivery → List Delivery
unfolding record_outcome
record_outcomes net ev get [] rows = rows
record_outcomes net ev get (ch ∷ chs) rows =
    let recorded = record_outcome net ev ch (get ch.id) rows in
    record_outcomes net ev get chs (if ch.enabled then recorded else rows)

-- The latency of the alert, next to the average one.
abbrev pub enrich : Average → Event → Event
enrich unwired nev = nev
enrich unknown nev = nev
enrich (average avg) nev =
    if is_some nev.check.latency_ms then record nev { avg_latency_ms = avg } else nev

abbrev pub stamp : Channel → Channel
stamp ch = record ch { config = stamp_channel_id ch.id ch.config }

-- dispatch: what the sends record, in the collector's order, and the table after it.
unfoldable pub dispatch :
    Net → NotifyMessage → List Channel → List Delivery → List Recorded × List Delivery
unfolding build_event goroutines collect collector_get record_outcomes
dispatch net ev channels rows =
    let nev = enrich net.avg_latency (build_event ev net.now) in
    let stamped = map stamp channels in
    let sent = net.merge (goroutines net nev stamped) in
    (sent, record_outcomes net ev (λ id. collector_get id (collect sent [])) stamped rows)
