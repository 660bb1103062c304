-- ===== src/Alerting/Service.antt =====
-- internal/alerting/service.go: one check.results record, from the bus to the notification.
-- Metrics, spans and log lines are left out. crypto/sha256 with encoding/hex is the parameter
-- `sha256_hex`. An Env says what the world does during one call: how each transaction's connection
-- behaves, whether json.Marshal and the producer succeed, and the time at the send.
use pulse_pager.Prelude.{
  ℕ, ℤ, pos, negsuc, ◌-◌, ◌/◌, Bool, true, false, ◌&&◌, ◌||◌, Option, none, some, List, [], ◌∷◌,
  ◌++◌, String, str_eq, ltb, ◌==◌, if◌then◌else◌, format_int, format_signed,
}
use pulse_pager.Domain.{Time, second, Monitor, CheckResult, Incident, AlertState}
use pulse_pager.Alerting.Engine
use pulse_pager.Alerting.Engine.{
  NotifyEventType, NotifyEvent, down, recovery, nothing, open_incident, close_incident, apply,
}
use pulse_pager.Store.Db.{Db, Error, no_rows, Result, ok, err, Link}
use pulse_pager.Store.Incidents
use pulse_pager.Store.Incidents.{
  IncidentAction, AppliedDecision, upsert_check_result, get_monitor, get_alert_state,
  apply_alert_decision,
}

-- events.CheckResultEvent
pub record CheckResultEvent : Type 0 where
  pub job_id : List ℕ
  pub scheduled_at : Time
  pub result : CheckResult

-- events.NotifyEvent
pub record NotifyMessage : Type 0 where
  pub org_id : ℕ
  pub monitor_id : ℕ
  pub incident_id : ℕ
  pub event_type : NotifyEventType
  pub dedup_key : List ℕ
  pub monitor_name : String
  pub monitor_url : String
  pub monitor_method : String
  pub incident_started_at : Time
  pub incident_ended_at : Option Time
  pub duration_seconds : Option ℤ
  pub check : CheckResult
  pub channel_ids : List ℕ
  pub regions_observed : List String
  pub sent_at : Time

pub record Env : Type 0 where
  pub upserts : Link
  pub gets_monitor : Link
  pub gets_state : Link
  pub applies : Link
  pub marshals : Bool
  pub produces : Bool
  pub sent_at : Time

abbrev pub kind_bytes : NotifyEventType → List ℕ
kind_bytes down = b'd' ∷ b'o' ∷ b'w' ∷ b'n' ∷ []
kind_bytes recovery = b'r' ∷ b'e' ∷ b'c' ∷ b'o' ∷ b'v' ∷ b'e' ∷ b'r' ∷ b'y' ∷ []

abbrev pub warn_suffix : Option ℤ → List ℕ
warn_suffix none = []
warn_suffix (some days) = b':' ∷ format_signed days

-- The text that dedupKey hashes.
unfoldable pub dedup_input : ℕ → NotifyEventType → Option ℤ → List ℕ
dedup_input incident_id kind warn_days =
    format_int incident_id ++ (b':' ∷ (kind_bytes kind ++ warn_suffix warn_days))

-- toStoreDecision
unfoldable pub to_store_decision : Engine.Decision → Incidents.Decision
to_store_decision d = record {
  action = elim d.action [
    | open_incident ↦ IncidentAction.incident_open
    | close_incident ↦ IncidentAction.incident_close
    | nothing ↦ IncidentAction.incident_none
  ];
  new_consecutive = d.new_consecutive;
  new_first_fail_at = d.new_first_fail_at;
  incident_started_at = d.incident_started_at;
  cause_reason = d.cause_reason;
  incident_ended_at = d.incident_ended_at;
  new_ssl_warned_days = d.new_ssl_warned_days;
  renotify = d.renotify;
}

-- reduceToVerdict: with one region the result is the verdict.
abbrev pub reduce_to_verdict : CheckResult → ℕ → CheckResult × ℕ
reduce_to_verdict res result_id = (res, result_id)

abbrev is_recovery : NotifyEventType → Bool
is_recovery recovery = true
is_recovery down = false

-- int(b.Sub(a).Seconds()) truncates towards zero. It is exact below 2^24 seconds, where the float
-- keeps the nanoseconds apart.
abbrev pub seconds_between : Time → Time → ℤ
seconds_between a b = if ltb b a then negate ((a - b) / second) else pos ((b - a) / second)
  where
    negate : ℕ → ℤ
    negate n = if n == 0 then pos 0 else negsuc (n - 1)

abbrev duration_of : NotifyEventType → Time → Option Time → Option ℤ
duration_of recovery started (some ended) = some (seconds_between started ended)
duration_of _ _ _ = none

-- What forgives pgx.ErrNoRows: the monitor is gone and the result is dropped.
abbrev forgive_no_rows : Error → Result (Unit {0})
forgive_no_rows no_rows = ok tt
forgive_no_rows e = err e

-- What one call of the handler leaves: the tables, what it has produced, and its error.
pub record Handled : Type 0 where
  pub db : Db
  pub emitted : Option NotifyMessage
  pub returned : Result (Unit {0})

module _ (sha256_hex : List ℕ → List ℕ) where
  unfoldable pub dedup_key : ℕ → NotifyEventType → Option ℤ → List ℕ
  unfolding dedup_input
  dedup_key incident_id kind warn_days = sha256_hex (dedup_input incident_id kind warn_days)

  -- emit: the message, unless it cannot be marshalled or produced, which is only logged.
  unfoldable pub emit :
      Env → Monitor → Incident → CheckResult → NotifyEventType → Option ℤ → Option NotifyMessage
  unfolding dedup_key
  emit env m inc verdict kind warn_days =
      if env.marshals && env.produces
      then some (record {
        org_id = m.org_id;
        monitor_id = m.id;
        incident_id = inc.id;
        event_type = kind;
        dedup_key = dedup_key inc.id kind warn_days;
        monitor_name = m.name;
        monitor_url = m.url;
        monitor_method = m.method;
        incident_started_at = inc.started_at;
        incident_ended_at = inc.ended_at;
        duration_seconds = duration_of kind inc.started_at inc.ended_at;
        check = record verdict { snapshot = none; cert_info = none };
        channel_ids = m.channel_ids;
        regions_observed =
            if is_recovery kind || str_eq verdict.region "" then [] else verdict.region ∷ [];
        sent_at = env.sent_at;
      })
      else none

  -- Step 6 of handle.
  unfoldable pub notify_applied :
      Env → Monitor → CheckResult → Option NotifyEvent → AppliedDecision → Option NotifyMessage
  unfolding emit
  notify_applied env m verdict none applied = none
  notify_applied env m verdict (some event) applied = elim applied.incident [
    | none ↦ none
    | some inc ↦ if applied.applied then emit env m inc verdict event.type event.warn_days else none
  ]

  -- Steps 4 to 6 of handle, from the alert state on.
  unfoldable pub decide : Env → Monitor → CheckResult → ℕ → AlertState → Db → Handled
  unfolding notify_applied to_store_decision
  decide env m res result_id state db =
      let (verdict, max_result_id) = reduce_to_verdict res result_id in
      let decision = apply m verdict state in
      let (db', applied) =
        apply_alert_decision env.applies m max_result_id result_id (to_store_decision decision)
          db in
      elim applied [
        | err e ↦ record { db = db'; emitted = none; returned = err e }
        | ok done ↦ record {
          db = db';
          emitted =
              if done.skipped then none else notify_applied env m verdict decision.notify done;
          returned = ok tt;
        }
      ]

  -- Step 4 of handle, from the monitor on.
  unfoldable pub load_state : Env → Monitor → CheckResult → ℕ → Db → Handled
  unfolding decide
  load_state env m res result_id db =
      let (db', loaded) = get_alert_state env.gets_state m.org_id m.id db in
      elim loaded [
        | err e ↦ record { db = db'; emitted = none; returned = forgive_no_rows e }
        | ok state ↦ decide env m res result_id state db'
      ]

  -- Steps 2 to 4 of handle, from the stored row on.
  unfoldable pub load_and_decide : Env → CheckResult → ℕ → Db → Handled
  unfolding load_state
  load_and_decide env res result_id db =
      let (db', got) = get_monitor env.gets_monitor res.org_id res.monitor_id db in
      elim got [
        | err e ↦ record { db = db'; emitted = none; returned = forgive_no_rows e }
        | ok m ↦ load_state env m res result_id db'
      ]

  -- handle, on a payload that has been read, or not at all.
  unfoldable pub handle : Env → Option CheckResultEvent → Db → Handled
  unfolding load_and_decide
  handle env none db = record { db = db; emitted = none; returned = ok tt }
  handle env (some ev) db =
      let res = record (ev.result) { scheduled_at = ev.scheduled_at } in
      let (db₁, stored) = upsert_check_result env.upserts res db in
      elim stored [
        | err e ↦ record { db = db₁; emitted = none; returned = err e }
        | ok result_id ↦ load_and_decide env (record res { id = result_id }) result_id db₁
      ]
