-- ===== src/Notifier/First.antt =====
-- internal/notify/service.go: the first delivery of a notification.
use pulse_pager.Prelude.{ℕ, ◌≡◌, refl, ap, ◌∙◌, true, false, some, List, arith, any}
use pulse_pager.Store.Db.{ok, works}
use pulse_pager.Alerting.Service.{NotifyMessage}
use pulse_pager.Notifier.Channels.{Channel}
use pulse_pager.Notifier.OrgWebhooks.{Libraries}
use pulse_pager.Notifier.Service.{
  State, Env, CachedKey, Claim, is_claim, is_held, redis_key, set_if_absent, claim_notify_dedup,
  claim_first, dedup, dedup_id_of, after_dedup, handle, get_channels_for_monitor, notify,
  notify_channels, deliver_webhooks,
}
use pulse_pager.Notifier.Once.{is_claimed, dedup-first, after_dedup-claims}

module _ (env : Env) (org_id : ℕ) (id : List ℕ) (st : State) where
  dedup-wins :
      any (is_held (redis_key id) env.now) st.keys ≡ false
      → is_claimed org_id id st ≡ false
      → env.claims ≡ works
      → (dedup env org_id id st).1 ≡ ok true
  unfolding dedup set_if_absent claim_first claim_notify_dedup
  dedup-wins k c w = ground arith

  dedup-rest :
      (keys : List CachedKey) × (claims : List Claim) × ((dedup env org_id id st).0
        ≡ record st { keys = keys; claims = claims })
  unfolding dedup set_if_absent claim_first claim_notify_dedup
  dedup-rest = ((dedup env org_id id st).0.keys, (dedup env org_id id st).0.claims, ground arith)

after_dedup-first :
    (lib : Libraries) (env : Env) (ev : NotifyMessage) (st : State) (chs : List Channel)
    → get_channels_for_monitor env.loads_channels ev.org_id ev.monitor_id st.monitors st.channels
      ≡ ok chs
    → let h = after_dedup lib env ev st (ok true) in
      (h.returned ≡ ok tt)
      × (h.sent ≡ (notify_channels env.net ev chs st.deliveries).0)
      × (h.posted ≡ (deliver_webhooks lib env ev st).0)
unfolding after_dedup notify
after_dedup-first lib env ev st chs loaded = rw (loaded, after_dedup) (refl, refl, refl)

-- The first delivery of a notification, whose key Redis does not hold and whose dedup id is not
-- claimed, succeeds if the claim and the load of the channels do: all that the load gives is sent
-- to, the org's webhooks are posted to, and the id is claimed.
pub handle_first :
    (lib : Libraries) (env : Env) (ev : NotifyMessage) (st : State) (chs : List Channel)
    → any (is_held (redis_key (dedup_id_of lib ev)) env.now) st.keys ≡ false
    → is_claimed ev.org_id (dedup_id_of lib ev) st ≡ false
    → env.claims ≡ works
    → get_channels_for_monitor env.loads_channels ev.org_id ev.monitor_id st.monitors st.channels
      ≡ ok chs
    → let h = handle lib env (some ev) st in
      (h.returned ≡ ok tt)
      × (h.sent ≡ (notify_channels env.net ev chs st.deliveries).0)
      × (h.posted ≡ (deliver_webhooks lib env ev st).0)
      × (is_claimed ev.org_id (dedup_id_of lib ev) h.state ≡ true)
unfolding handle deliver_webhooks
handle_first lib env ev st chs free unclaimed works_claim loaded =
    let id = dedup_id_of lib ev in
    let won = dedup-wins env ev.org_id id st free unclaimed works_claim in
    let (keys, claims, rest) = dedup-rest env ev.org_id id st in
    let (done, sent, posted) =
      after_dedup-first lib env ev (record st { keys = keys; claims = claims }) chs loaded in
    let claimed =
      ap (any (is_claim ev.org_id id))
        (after_dedup-claims lib env ev (dedup env ev.org_id id st).0 (ok true))
      ∙ (dedup-first env ev.org_id id st won).1 in
    rw won (rw rest done, rw rest sent, rw rest posted, claimed)
