-- ===== src/Notifier/Lost.antt =====
-- internal/notify/service.go: what a failure after the dedup id is taken does to the notification.
use pulse_pager.Prelude.{
  ℕ, ◌+◌, ◌<◌, ◌≡◌, ◌≢◌, refl, ap, ◌∙◌, Bool, true, false, some, List, arith, any,
}
use pulse_pager.Store.Db.{Result, ok, err, unavailable, works, lost}
use pulse_pager.Alerting.Service.{NotifyMessage}
use pulse_pager.Notifier.OrgWebhooks.{Libraries}
use pulse_pager.Notifier.Service.{
  State, Env, is_held, redis_key, dedup_ttl, set_if_absent, claim_notify_dedup, claim_first, dedup,
  dedup_id_of, after_dedup, handle, get_channels_for_monitor,
}
use pulse_pager.Notifier.Once.{
  is_claimed, is_noisy, bytes_eq_refl, dedup-first, Step, times_heard, times_heard_claimed,
}

module _ (lib : Libraries) (env : Env) (ev : NotifyMessage) where
  after_dedup-load_fails :
      (st : State)
      → env.loads_channels ≢ works
      → let h = after_dedup lib env ev st (ok true) in
        (h.returned ≡ err unavailable) × (is_noisy h ≡ false) × (h.state ≡ st)
  unfolding after_dedup get_channels_for_monitor
  after_dedup-load_fails st broken = ground arith

  dedup-claim_fails :
      (id : List ℕ) (st : State)
      → env.has_cache ≡ true
      → env.sets ≡ works
      → any (is_held (redis_key id) env.now) st.keys ≡ false
      → env.claims ≡ lost
      → (dedup env ev.org_id id st).1 ≡ err unavailable
  unfolding dedup set_if_absent claim_first claim_notify_dedup
  dedup-claim_fails id st c s k l = ground arith

  dedup-held :
      (id : List ℕ) (st : State)
      → env.has_cache ≡ true
      → env.sets ≡ works
      → any (is_held (redis_key id) env.now) st.keys ≡ true
      → (dedup env ev.org_id id st).1 ≡ ok false
  unfolding dedup set_if_absent
  dedup-held id st c s k = ground arith

  dedup-keeps_key :
      (id : List ℕ) (st : State) (later : ℕ)
      → env.has_cache ≡ true
      → env.sets ≡ works
      → any (is_held (redis_key id) env.now) st.keys ≡ false
      → later < env.now + dedup_ttl
      → any (is_held (redis_key id) later) (dedup env ev.org_id id st).0.keys ≡ true
  unfolding dedup set_if_absent claim_first
  dedup-keeps_key id st later c s k soon = ground (arith, bytes_eq_refl (redis_key id))

  after_dedup-err :
      (st : State) (first : Result Bool)
      → first ≡ err unavailable
      → let h = after_dedup lib env ev st first in
        (h.returned ≡ err unavailable) × (is_noisy h ≡ false) × (h.state ≡ st)
  unfolding after_dedup
  after_dedup-err st (err e) h = ground (arith, h)
  after_dedup-err st (ok b) h = absurd (ground (arith, h))

  after_dedup-duplicate :
      (st : State) (first : Result Bool)
      → first ≡ ok false
      → let h = after_dedup lib env ev st first in (h.returned ≡ ok tt) × (is_noisy h ≡ false)
  unfolding after_dedup
  after_dedup-duplicate st (ok false) h = (refl, refl)
  after_dedup-duplicate st (ok true) h = absurd (ground (arith, h))
  after_dedup-duplicate st (err e) h = absurd (ground (arith, h))

-- If a call is the first for its dedup id and then cannot load the monitor's channels, it fails,
-- so that the bus delivers the notification again, and no later delivery is acted on: the alert
-- reaches nobody.
pub load_failure_loses :
    (lib : Libraries) (env : Env) (ev : NotifyMessage) (st : State) (later : List Step)
    → (dedup env ev.org_id (dedup_id_of lib ev) st).1 ≡ ok true
    → env.loads_channels ≢ works
    → let h = handle lib env (some ev) st in
      (h.returned ≡ err unavailable)
      × (is_noisy h ≡ false)
      × (times_heard lib ev.org_id (dedup_id_of lib ev) later h.state ≡ 0)
unfolding handle
load_failure_loses lib env ev st later won broken =
    let id = dedup_id_of lib ev in
    let (failed, quiet, same) =
      after_dedup-load_fails lib env ev (dedup env ev.org_id id st).0 broken in
    rw won (
      failed,
      quiet,
      times_heard_claimed lib ev.org_id id later _
          (ap (is_claimed ev.org_id id) same ∙ (dedup-first env ev.org_id id st won).1),
    )

-- If Redis takes the key of a notification and the claim in the database then fails, the call
-- fails, so that the bus delivers the notification again; and a delivery of it while Redis still
-- holds the key is dropped as a duplicate, though nothing was ever sent.
pub claim_failure_loses :
    (lib : Libraries) (env env' : Env) (ev : NotifyMessage) (st : State)
    → env.has_cache ≡ true
    → env.sets ≡ works
    → any (is_held (redis_key (dedup_id_of lib ev)) env.now) st.keys ≡ false
    → env.claims ≡ lost
    → env'.has_cache ≡ true
    → env'.sets ≡ works
    → env'.now < env.now + dedup_ttl
    → let h = handle lib env (some ev) st in
      let again = handle lib env' (some ev) h.state in
      (h.returned ≡ err unavailable)
      × (is_noisy h ≡ false)
      × (again.returned ≡ ok tt)
      × (is_noisy again ≡ false)
unfolding handle
claim_failure_loses lib env env' ev st c s free l c' s' soon =
    let id = dedup_id_of lib ev in
    let (failed, quiet, same) =
      after_dedup-err lib env ev (dedup env ev.org_id id st).0 (dedup env ev.org_id id st).1
        (dedup-claim_fails lib env ev id st c s free l) in
    let held =
      ap (λ x. any (is_held (redis_key id) env'.now) x.keys) same
      ∙ dedup-keeps_key lib env ev id st env'.now c s free soon in
    let (done, silent) =
      after_dedup-duplicate lib env' ev _ _ (dedup-held lib env' ev id _ c' s' held) in
    (failed, quiet, done, silent)
