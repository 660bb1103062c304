-- ===== src/Alerting/Delivery.antt =====
-- What at-least-once delivery makes of the handler of internal/alerting/service.go.
use pulse_pager.Prelude.{
  ℕ, ◌≡◌, ◌≢◌, refl, ap, ◌∙◌, false, Option, none, some, List, [], ◌∷◌, arith, find, any, ◌==◌,
  map_some,
}
use pulse_pager.Domain.{CheckResult}
use pulse_pager.Store.Db.{MonitorRow, Db, ok, works, lost, with_org, is_row, same_result}
use pulse_pager.Store.Incidents.{upsert_result, upsert_check_result, is_newer}
use pulse_pager.Alerting.Service.{
  CheckResultEvent, NotifyMessage, Env, emit, notify_applied, decide, load_state, load_and_decide,
  handle,
}
use pulse_pager.Alerting.Redelivery.{stamped, SameTables, IsSettled, redelivery-silent}
use pulse_pager.Alerting.Settling.{handle-settles}

-- The connection works until the decision is applied, and that transaction is not lost.
pub record Reaches (env : Env) : Type 0 where
  pub upserted : env.upserts ≡ works
  pub monitor_read : env.gets_monitor ≡ works
  pub state_read : env.gets_state ≡ works
  pub committed : env.applies ≢ lost

some_of_map {ℓ κ} :
    {A : Type ℓ} {B : Type κ} (f : A → B) (o : Option A) (b : B)
    → map_some f o ≡ some b
    → (a : A) × (o ≡ some a) × (f a ≡ b)
some_of_map f none b e = cc
some_of_map f (some a) b e = (a, cc, cc)

abbrev with_message : Option NotifyMessage → List NotifyMessage → List NotifyMessage
with_message none rest = rest
with_message (some msg) rest = msg ∷ rest

module _ (sha256_hex : List ℕ → List ℕ) where
  pub handle-IsSettled :
      (env : Env) (ev : CheckResultEvent) (db : Db) (row : MonitorRow)
      → Reaches env
      → find (is_row ev.result.org_id ev.result.monitor_id) db.monitors ≡ some row
      → IsSettled ev (handle sha256_hex env (some ev) db).db
  handle-IsSettled env ev db row r located =
      let (i, stored, reached) =
        handle-settles sha256_hex env r.committed ev db row r.upserted r.monitor_read r.state_read
          located in
      let (old, e, same) = some_of_map (λ (x : CheckResult). x.id) _ i stored in
      let (row', e', stale) =
        some_of_map (λ (x : MonitorRow). is_newer i x.last_applied_result_id) _ false reached in
      record {
        stored = old;
        is_stored = e;
        row = row';
        is_located = e';
        is_applied = rw same stale;
      }

  -- A result is applied once: when the first delivery of an event gets as far as committing its
  -- decision, a second one changes no monitor, result or incident and sends nothing, also when the
  -- first one failed to acknowledge the commit.
  pub handle_twice :
      (env env' : Env) (ev : CheckResultEvent) (db : Db) (row : MonitorRow)
      → Reaches env
      → find (is_row ev.result.org_id ev.result.monitor_id) db.monitors ≡ some row
      → let first = handle sha256_hex env (some ev) db in
        let second = handle sha256_hex env' (some ev) first.db in
        SameTables second.db first.db × (second.emitted ≡ none)
  handle_twice env env' ev db row r located =
      redelivery-silent sha256_hex env' ev (handle sha256_hex env (some ev) db).db
        (handle-IsSettled env ev db row r located)

  unsent :
      (env : Env) (ev : CheckResultEvent) (db : Db)
      → env.produces ≡ false
      → (handle sha256_hex env (some ev) db).emitted ≡ none
  unfolding handle load_and_decide load_state decide notify_applied emit
  unsent env ev db p = ground arith

  again-IsSettled :
      (env : Env) (ev : CheckResultEvent) (db : Db)
      → IsSettled ev db
      → IsSettled ev (handle sha256_hex env (some ev) db).db
        × ((handle sha256_hex env (some ev) db).emitted ≡ none)
  again-IsSettled env ev db settled =
      let (same, silent) = redelivery-silent sha256_hex env ev db settled in
      (
        record {
          stored = settled.stored;
          is_stored = ap (find (same_result (stamped ev))) same.results_same ∙ settled.is_stored;
          row = settled.row;
          is_located =
              ap (find (is_row ev.result.org_id ev.result.monitor_id)) same.monitors_same
              ∙ settled.is_located;
          is_applied = settled.is_applied;
        },
        silent,
      )

  -- What the deliveries of one event send, one after another on the tables of the one before.
  abbrev pub deliveries : CheckResultEvent → List Env → Db → List NotifyMessage
  deliveries ev [] db = []
  deliveries ev (env ∷ envs) db =
      let h = handle sha256_hex env (some ev) db in with_message h.emitted (deliveries ev envs h.db)

  deliveries-silent :
      (ev : CheckResultEvent) (envs : List Env) (db : Db)
      → IsSettled ev db
      → deliveries ev envs db ≡ []
  deliveries-silent ev [] db settled = refl
  deliveries-silent ev (env ∷ envs) db settled =
      let (still, silent) = again-IsSettled env ev db settled in
      let h = handle sha256_hex env (some ev) db in
      ap (λ sent. with_message sent (deliveries ev envs h.db)) silent
      ∙ deliveries-silent ev envs h.db still

  -- A notification is not sent later: when the producer fails after the decision is committed, this
  -- delivery sends nothing, and so do all those that follow it on the tables it leaves, however many
  -- they are and whatever their connections and producers do.
  pub lost_notification :
      (env : Env) (envs : List Env) (ev : CheckResultEvent) (db : Db) (row : MonitorRow)
      → Reaches env
      → env.produces ≡ false
      → find (is_row ev.result.org_id ev.result.monitor_id) db.monitors ≡ some row
      → deliveries ev (env ∷ envs) db ≡ []
  lost_notification env envs ev db row r p located =
      let h = handle sha256_hex env (some ev) db in
      ap (λ sent. with_message sent (deliveries ev envs h.db)) (unsent env ev db p)
      ∙ deliveries-silent ev envs h.db (handle-IsSettled env ev db row r located)

  -- A result of a deleted monitor is not dropped: with no row of that id left in the monitors
  -- table, and no stored result for the event, each delivery ends in an error and changes no
  -- monitor, result or incident, so that the record is delivered again.
  pub orphan_fails :
      (env : Env) (ev : CheckResultEvent) (db : Db)
      → any (λ row. row.monitor.id == ev.result.monitor_id) db.monitors ≡ false
      → find (same_result (stamped ev)) db.check_results ≡ none
      → let h = handle sha256_hex env (some ev) db in (h.returned ≢ ok tt) × SameTables h.db db
  unfolding handle upsert_check_result upsert_result with_org
  orphan_fails env ev db gone new = (λ e. ground arith, ground arith)
