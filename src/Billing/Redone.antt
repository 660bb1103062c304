-- ===== src/Billing/Redone.antt =====
-- internal/billing/ingest.go: what the provider's retry makes of an event that failed.
use pulse_pager.Prelude.{
  ℕ, ◌≡◌, ◌≢◌, refl, ◌∙◌, String, str_eq, Bool, true, false, List, arith, any, ◌==◌,
  any-update_where,
}
use pulse_pager.Store.Db.{commit_unknown}
use pulse_pager.Billing.{
  Tables, Event, Env, Called, subscription, is_live_org, set_plan, transact,
  apply_subscription_event, apply_payment_event, insert_event, is_processed,
  mark_billing_event_processed, org_by_customer,
}
use pulse_pager.Billing.Ingest.{
  Request, Verdict, verify, plan_of, act, act_on, resolve, settle, act_if_new, record_and_act,
  serve,
}
use pulse_pager.Billing.Retry.{serve-retried}
use pulse_pager.Billing.Sync.{AllWork, IsSettled, serve-IsSettled}

-- No step deletes an org or restores one.
module _ (k : ℕ) (env : Env) (ev : Event) where
  is_kept : Tables → Bool
  is_kept t = any (is_live_org k) t.orgs

  act_on-kept : (org_id : ℕ) (t : Tables) → is_kept (act_on env org_id ev t).0 ≡ is_kept t
  unfolding is_kept act_on apply_subscription_event apply_payment_event transact
  act_on-kept org_id t = ground (
    arith,
    any-update_where (is_live_org k) (is_live_org org_id) (set_plan (plan_of ev)) (λ o. refl)
        t.orgs,
  )

  act-kept : (t : Tables) → is_kept (act env ev t).0 ≡ is_kept t
  unfolding act resolve
  act-kept t =
      ground (
        arith,
        act_on-kept ev.org_id t,
        act_on-kept (org_by_customer ev.provider ev.customer_id t) t,
      )

  settle-kept : (called : Called) → is_kept (settle env ev called).0 ≡ is_kept called.0
  unfolding is_kept settle mark_billing_event_processed
  settle-kept called = ground arith

  act_if_new-kept : (t : Tables) → is_kept (act_if_new env ev t).0 ≡ is_kept t
  unfolding act_if_new
  act_if_new-kept t = ground (arith, settle-kept (act env ev t), act-kept t)

  insert_event-kept :
      (t : Tables) → is_kept (insert_event env.inserts ev.provider ev.id t).0 ≡ is_kept t
  unfolding is_kept insert_event
  insert_event-kept t = ground arith

  record_and_act-kept : (t : Tables) → is_kept (record_and_act env ev t).0 ≡ is_kept t
  unfolding record_and_act
  record_and_act-kept t =
      let inserted = (insert_event env.inserts ev.provider ev.id t).0 in
      ground (arith, insert_event-kept t, act_if_new-kept inserted)

module _ (name : String) (verify_webhook : List ℕ → String → Verdict) (env : Env) (req : Request)
    (ev : Event) (t : Tables) where
  serve-kept :
      (k : ℕ)
      → verify name verify_webhook req.body req.signature ≡ Verdict.verified ev
      → any (is_live_org k) (serve name verify_webhook env req t).0.orgs
        ≡ any (is_live_org k) t.orgs
  unfolding serve is_kept
  serve-kept k v = ground (arith, v, record_and_act-kept k env ev t)

  -- A failed event is made good by a retry: when a verified subscription event that has an id, names
  -- an org that is not deleted and was not handled before is answered with 500, the same request is
  -- answered with 200 once every connection works, and then the org's one subscription has the
  -- event's status, it and the org have the plan that the event calls for, and the event is stamped.
  -- The exception is a stamp that was written but whose acknowledgement was lost.
  pub serve_again :
      (env' : Env)
      → str_eq req.path_provider name ≡ true
      → verify name verify_webhook req.body req.signature ≡ Verdict.verified ev
      → str_eq ev.id "" ≡ false
      → ev.kind ≡ subscription
      → (ev.org_id == 0) ≡ false
      → any (is_live_org ev.org_id) t.orgs ≡ true
      → is_processed ev.provider ev.id t ≡ false
      → env.marks ≢ commit_unknown
      → (serve name verify_webhook env req t).1 ≡ 500
      → AllWork env'
      → IsSettled ev.org_id ev
          (serve name verify_webhook env' req (serve name verify_webhook env req t).0)
  serve_again env' p v i k o live new m failed w =
      serve-IsSettled name verify_webhook env' req ev (serve name verify_webhook env req t).0 p v i
        w k o (serve-kept ev.org_id v ∙ live)
        (serve-retried name verify_webhook env req ev t v new m failed)
