-- ===== src/Bus/Orphans.antt =====
-- The consumer of internal/bus/redis.go with the handler of internal/alerting/service.go.
use pulse_pager.Prelude.{
  ℕ, ◌+◌, ◌≡◌, ◌≢◌, refl, ap, ◌∙◌, String, Bool, true, false, Option, none, some, List, [], ◌∷◌,
  any, find, ◌==◌, All,
}
use pulse_pager.Store.Db.{Db, Result, ok, err, same_result}
use pulse_pager.Alerting.Service.{CheckResultEvent, Env}
use pulse_pager.Alerting.Service
use pulse_pager.Alerting.Redelivery.{stamped}
use pulse_pager.Alerting.Delivery.{orphan_fails}
use pulse_pager.Bus.{Message, Record, to_redis_record}
use pulse_pager.Bus.Blocking.{Step, stuck_at, run, run-blocked}

abbrev pub succeeds : Result (Unit {0}) → Bool
succeeds (ok u) = true
succeeds (err e) = false

-- The result's monitor is gone, and the result is not stored.
abbrev pub IsOrphan : CheckResultEvent → Db → Type 0
IsOrphan ev db =
    (any (λ row. row.monitor.id == ev.result.monitor_id) db.monitors ≡ false)
    × (find (same_result (stamped ev)) db.check_results ≡ none)

-- `decode` stands for json.Unmarshal of a payload, and `envs` says what the world does during each
-- call, by the number of the call.
module _ (decode : List ℕ → Option CheckResultEvent) (sha256_hex : List ℕ → List ℕ)
    (envs : ℕ → Env) where
  -- Runner.Run's handler of a record, on the tables and the number of the calls so far
  unfoldable pub alerting_handler : Record → Db × ℕ → (Db × ℕ) × Bool
  alerting_handler rec (db, calls) =
      let h = Service.handle sha256_hex (envs calls) (decode rec.value) db in
      ((h.db, calls + 1), succeeds h.returned)

  fails-succeeds : (r : Result (Unit {0})) → r ≢ ok tt → succeeds r ≡ false
  fails-succeeds (ok u) h = absurd (h refl)
  fails-succeeds (err e) h = refl

  IsOrphan-handled :
      (topic : String) (m : Message) (ev : CheckResultEvent)
      → decode (to_redis_record topic m).value ≡ some ev
      → (s : Db × ℕ) → IsOrphan ev s.0
      → ((alerting_handler (to_redis_record topic m) s).1 ≡ false)
        × IsOrphan ev (alerting_handler (to_redis_record topic m) s).0.0
  unfolding alerting_handler
  IsOrphan-handled topic m ev decoded (db, calls) (gone, new) =
      let (failed, same) = orphan_fails sha256_hex (envs calls) ev db gone new in
      rw decoded (
        fails-succeeds _ failed,
        (
          ap (any (λ row. row.monitor.id == ev.result.monitor_id)) same.monitors_same ∙ gone,
          ap (find (same_result (stamped ev))) same.results_same ∙ new,
        ),
      )

-- On the Redis backend, a pending result of a deleted monitor stops the alerting of every other
-- monitor: as long as it heads the stream, whatever Redis and the database do and whatever results
-- arrive, no other result is handled and none is acknowledged.
pub orphan_blocks :
    (decode : List ℕ → Option CheckResultEvent) (sha256_hex : List ℕ → List ℕ) (envs : ℕ → Env)
    (topic : String) (m : Message) (ev : CheckResultEvent) (steps : List Step)
    (rest fresh : List Message) (db : Db)
    → decode (to_redis_record topic m).value ≡ some ev
    → any (λ row. row.monitor.id == ev.result.monitor_id) db.monitors ≡ false
    → find (same_result (stamped ev)) db.check_results ≡ none
    → let done =
        run
          (alerting_handler decode sha256_hex envs)
          steps
          (stuck_at topic m rest fresh ∷ [])
          (db, 0) in
      All (λ e. e.1 ≡ m) done.seen × (done.acked ≡ [])
orphan_blocks decode sha256_hex envs topic m ev steps rest fresh db decoded gone new =
    run-blocked (alerting_handler decode sha256_hex envs) topic m (λ s. IsOrphan ev s.0)
      (IsOrphan-handled decode sha256_hex envs topic m ev decoded) steps rest fresh [] (db, 0)
      (gone, new)
