-- ===== src/Tests/Alerting.antt =====
-- The theorems on internal/alerting/service.go and the store, at concrete values.
use pulse_pager.Prelude.{
  ℕ, ◌≡◌, refl, true, false, none, some, List, [], ◌∷◌, arith, count_where, find,
}
use pulse_pager.Store.Db.{Db, works, lost, commit_unknown, is_row, with_org}
use pulse_pager.Store.Incidents.{
  get_open_incident, scan_alert_state, upsert_check_result, upsert_result, get_monitor,
  get_alert_state, select_monitor, select_alert_state, apply_alert_decision,
}
use pulse_pager.Store.Invariant.{IsValid}
use pulse_pager.Alerting.Service.{
  CheckResultEvent, Env, handle, load_and_decide, load_state, decide,
}
use pulse_pager.Alerting.Redelivery.{stamped, SameTables}
use pulse_pager.Alerting.Delivery.{
  Reaches, handle_twice, lost_notification, deliveries, handle-IsSettled,
}
use pulse_pager.Alerting.Invariant.{handle-IsValid}
use pulse_pager.Alerting.History.{trailing, run_start}
use pulse_pager.Alerting.Current.{IsCurrent, IsPending}
use pulse_pager.Alerting.Outage.{History, History-IsCurrent}
use pulse_pager.Tests.{web_monitor, failed_check, event_of, row_of, fresh_db, env_of}

-- A stand-in for the hash.
abbrev same_bytes : List ℕ → List ℕ
same_bytes bytes = bytes

abbrev failed_event : CheckResultEvent
failed_event = event_of failed_check

abbrev working : Env
working = env_of works true

abbrev unacknowledged : Env
unacknowledged = env_of commit_unknown true

abbrev silent : Env
silent = env_of works false

working-Reaches : Reaches working
working-Reaches = record {
  upserted = refl;
  monitor_read = refl;
  state_read = refl;
  committed = λ e. ground arith;
}

unacknowledged-Reaches : Reaches unacknowledged
unacknowledged-Reaches = record {
  upserted = refl;
  monitor_read = refl;
  state_read = refl;
  committed = λ e. ground arith;
}

silent-Reaches : Reaches silent
silent-Reaches = record {
  upserted = refl;
  monitor_read = refl;
  state_read = refl;
  committed = λ e. ground arith;
}

fresh_db-IsValid : IsValid fresh_db
unfolding count_where
fresh_db-IsValid = record {
  one_open = λ id. omega arith;
  results_below = tt;
  incidents_below = tt;
  watermarks_below = (refl, (refl, tt));
}

fresh_db-IsCurrent : IsCurrent web_monitor [] fresh_db
unfolding find get_open_incident scan_alert_state trailing run_start
fresh_db-IsCurrent = record {
  row = row_of web_monitor;
  is_located = refl;
  is_its = refl;
  tracks = record { counted = refl; started = refl; outage_open = refl };
  owned = tt;
  valid = fresh_db-IsValid;
}

-- The commit fails, then it is done and its acknowledgement lost, and the record comes once more.
abbrev losing : Env
losing = env_of lost true

abbrev after_loss : Db
after_loss = (handle same_bytes losing (some failed_event) fresh_db).db

abbrev after_retry : Db
after_retry = (handle same_bytes unacknowledged (some failed_event) after_loss).db

abbrev after_all : Db
after_all = (handle same_bytes working (some failed_event) after_retry).db

after_loss-located : find (is_row 7 1) after_loss.monitors ≡ some (row_of web_monitor)
unfolding find handle load_and_decide load_state decide upsert_check_result upsert_result
    get_monitor get_alert_state select_monitor select_alert_state with_org apply_alert_decision
after_loss-located = refl

failed_event-IsPending : IsPending web_monitor failed_event after_loss
unfolding find handle load_and_decide load_state decide upsert_check_result upsert_result
    get_monitor get_alert_state select_monitor select_alert_state with_org apply_alert_decision
failed_event-IsPending = record {
  same_org = refl;
  same_monitor = refl;
  stored = record failed_check { id = 1 };
  is_stored = refl;
  is_unapplied = refl;
}

delivered_thrice : History same_bytes web_monitor fresh_db (stamped failed_event ∷ []) after_all
delivered_thrice =
    History.redeliver working failed_event
      (History.retry unacknowledged failed_event
        (History.attempt losing failed_event History.here refl) unacknowledged-Reaches
        failed_event-IsPending)
      (handle-IsSettled same_bytes unacknowledged failed_event after_loss (row_of web_monitor)
        unacknowledged-Reaches after_loss-located)

History-IsCurrent_example : IsCurrent web_monitor (stamped failed_event ∷ []) after_all
History-IsCurrent_example =
    History-IsCurrent same_bytes web_monitor fresh_db fresh_db-IsCurrent delivered_thrice

handle_twice_example :
    SameTables
      (handle same_bytes working
        (some failed_event)
        (handle same_bytes unacknowledged (some failed_event) fresh_db).db).db
      (handle same_bytes unacknowledged (some failed_event) fresh_db).db
    × ((handle same_bytes working
          (some failed_event)
          (handle same_bytes unacknowledged (some failed_event) fresh_db).db).emitted
        ≡ none)
unfolding find
handle_twice_example =
    handle_twice same_bytes unacknowledged working failed_event fresh_db (row_of web_monitor)
      unacknowledged-Reaches refl

lost_notification_example :
    deliveries same_bytes failed_event (silent ∷ working ∷ unacknowledged ∷ []) fresh_db ≡ []
unfolding find
lost_notification_example =
    lost_notification same_bytes silent (working ∷ unacknowledged ∷ []) failed_event fresh_db
      (row_of web_monitor) silent-Reaches refl refl

handle-IsValid_example : IsValid (handle same_bytes working (some failed_event) fresh_db).db
handle-IsValid_example =
    handle-IsValid same_bytes working (some failed_event) fresh_db fresh_db-IsValid
