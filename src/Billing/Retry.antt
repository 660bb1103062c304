-- ===== src/Billing/Retry.antt =====
-- internal/billing/ingest.go: an event that the payment provider delivers again.
use pulse_pager.Prelude.{
  ℕ, ◌≡◌, ◌≢◌, ap, ◌∙◌, String, str_eq, true, false, none, some, is_some, List, [], ◌∷◌, arith, any,
  find, find-append, find-some-any, any-none-find, Bool-cases, Option-cases, inl, inr, ◌⊎◌, ◌==◌,
}
use pulse_pager.Store.Db.{Link-cases, commit_unknown}
use pulse_pager.Billing.{
  org_by_customer, unavailable, Tables, Event, BillingEvent, Env, Called, is_event, is_processed,
  insert_event, mark_billing_event_processed, subscription, apply_subscription_event,
  apply_payment_event, transact, foreign_key,
}
use pulse_pager.Billing.Ingest.{
  Request, Verdict, verify, act, act_on, resolve, settle, act_if_new, record_and_act, serve,
}

module _ (env : Env) (ev : Event) (t : Tables) where
  processed-known :
      is_processed ev.provider ev.id t ≡ true → any (is_event ev.provider ev.id) t.inbox ≡ true
  unfolding is_processed
  processed-known h = elim (Option-cases (find (is_event ev.provider ev.id) t.inbox)) [
    | inl e ↦ absurd (ground (arith, h, e))
    | inr (row, e) ↦ find-some-any (is_event ev.provider ev.id) t.inbox row e
  ]

  insert_event-known :
      any (is_event ev.provider ev.id) t.inbox ≡ true
      → (insert_event env.inserts ev.provider ev.id t).0 ≡ t
  unfolding insert_event
  insert_event-known h = ground arith

  act_if_new-processed : is_processed ev.provider ev.id t ≡ true → (act_if_new env ev t).0 ≡ t
  unfolding act_if_new
  act_if_new-processed h = ground arith

  record_and_act-processed :
      is_processed ev.provider ev.id t ≡ true → (record_and_act env ev t).0 ≡ t
  unfolding record_and_act
  record_and_act-processed h =
      let same = insert_event-known (processed-known h) in
      ground (arith, same, act_if_new-processed h)

  pub insert_event-unprocessed :
      is_processed ev.provider ev.id t ≡ false
      → is_processed ev.provider ev.id (insert_event env.inserts ev.provider ev.id t).0 ≡ false
  unfolding insert_event is_processed find
  insert_event-unprocessed h =
      let row : BillingEvent = record {
        provider = ev.provider;
        event_id = ev.id;
        processed_at = none;
      } in
      ground (
        arith,
        h,
        any-none-find (is_event ev.provider ev.id) t.inbox,
        find-append (is_event ev.provider ev.id) t.inbox (row ∷ []),
      )

  act_on-inbox : (org_id : ℕ) → (act_on env org_id ev t).0.inbox ≡ t.inbox
  unfolding act_on apply_subscription_event apply_payment_event transact
  act_on-inbox org_id = ground arith

  act-inbox : (act env ev t).0.inbox ≡ t.inbox
  unfolding act resolve
  act-inbox =
      ground
        (arith, act_on-inbox ev.org_id, act_on-inbox (org_by_customer ev.provider ev.customer_id t))

  settle-failed :
      (called : Called)
      → is_processed ev.provider ev.id called.0 ≡ false
      → env.marks ≢ commit_unknown
      → (settle env ev called).1 ≡ 500
      → is_processed ev.provider ev.id (settle env ev called).0 ≡ false
  unfolding settle mark_billing_event_processed
  settle-failed called h m e = ground arith

  act_if_new-failed :
      is_processed ev.provider ev.id t ≡ false
      → env.marks ≢ commit_unknown
      → (act_if_new env ev t).1 ≡ 500
      → is_processed ev.provider ev.id (act_if_new env ev t).0 ≡ false
  unfolding act_if_new is_processed
  act_if_new-failed h m e = ground (arith, h, act-inbox, settle-failed (act env ev t))

-- A subscription event of an org without a row fails at the foreign key, or earlier.
act-missing_org :
    (env : Env) (ev : Event) (t : Tables)
    → ev.kind ≡ subscription
    → (ev.org_id == 0) ≡ false
    → any (λ o. o.id == ev.org_id) t.orgs ≡ false
    → (act env ev t ≡ (t, some foreign_key)) ⊎ (act env ev t ≡ (t, some unavailable))
unfolding act act_on apply_subscription_event transact
act-missing_org env ev t k o gone = elim (Link-cases env.applies) [
  | inl l ↦ inl (ground (arith, k, o, gone, l))
  | inr (inl l) ↦ inr (ground (arith, k, o, gone, l))
  | inr (inr l) ↦ inl (ground (arith, k, o, gone, l))
]

act_if_new-missing_org :
    (env : Env) (ev : Event) (t : Tables)
    → (act env ev t ≡ (t, some foreign_key)) ⊎ (act env ev t ≡ (t, some unavailable))
    → is_processed ev.provider ev.id t ≡ false
    → act_if_new env ev t ≡ (t, 500)
unfolding act_if_new settle
act_if_new-missing_org env ev t (inl e) h = ground (arith, e, h)
act_if_new-missing_org env ev t (inr e) h = ground (arith, e, h)

insert_event-rest :
    (env : Env) (ev : Event) (t : Tables)
    → let t' = (insert_event env.inserts ev.provider ev.id t).0 in
      (t'.orgs ≡ t.orgs) × (t'.subscriptions ≡ t.subscriptions)
unfolding insert_event
insert_event-rest env ev t = ground arith

record_and_act-missing_org :
    (env : Env) (ev : Event) (t : Tables)
    → ev.kind ≡ subscription
    → (ev.org_id == 0) ≡ false
    → any (λ o. o.id == ev.org_id) t.orgs ≡ false
    → is_processed ev.provider ev.id t ≡ false
    → let (t', status) = record_and_act env ev t in
      (status ≡ 500) × (t'.orgs ≡ t.orgs) × (t'.subscriptions ≡ t.subscriptions)
unfolding record_and_act
record_and_act-missing_org env ev t k o gone h =
    let t' = (insert_event env.inserts ev.provider ev.id t).0 in
    let (orgs, subscriptions) = insert_event-rest env ev t in
    let gone' = ap (any (λ o. o.id == ev.org_id)) orgs ∙ gone in
    ground (
      arith,
      orgs,
      subscriptions,
      act_if_new-missing_org env ev t' (act-missing_org env ev t' k o gone')
          (insert_event-unprocessed env ev t h),
    )

record_and_act-failed :
    (env : Env) (ev : Event) (t : Tables)
    → is_processed ev.provider ev.id t ≡ false
    → env.marks ≢ commit_unknown
    → (record_and_act env ev t).1 ≡ 500
    → is_processed ev.provider ev.id (record_and_act env ev t).0 ≡ false
unfolding record_and_act
record_and_act-failed env ev t h m e =
    let (inserted, failed) = insert_event env.inserts ev.provider ev.id t in
    let fresh = insert_event-unprocessed env ev t h in
    elim (Bool-cases (is_some failed)) [
      | inl lost_row ↦ rw (lost_row, record_and_act) fresh
      | inr done ↦
          rw (done, record_and_act)
            (act_if_new-failed env ev inserted fresh m (rw (done, record_and_act) at e))
    ]

module _ (name : String) (verify_webhook : List ℕ → String → Verdict) (env : Env) (req : Request)
    (ev : Event) (t : Tables) where
  -- A verified event that has been handled is not applied again: whatever the database does, a
  -- request with it leaves every table as it is.
  pub serve-processed :
      verify name verify_webhook req.body req.signature ≡ Verdict.verified ev
      → is_processed ev.provider ev.id t ≡ true
      → (serve name verify_webhook env req t).0 ≡ t
  unfolding serve
  serve-processed v h = ground (arith, v, record_and_act-processed env ev t h)

  -- A request that is answered with 500 leaves an event that was not handled so, unless the stamp is
  -- written and its acknowledgement lost.
  pub serve-retried :
      verify name verify_webhook req.body req.signature ≡ Verdict.verified ev
      → is_processed ev.provider ev.id t ≡ false
      → env.marks ≢ commit_unknown
      → (serve name verify_webhook env req t).1 ≡ 500
      → is_processed ev.provider ev.id (serve name verify_webhook env req t).0 ≡ false
  unfolding serve
  serve-retried v h m e = ground (arith, v, record_and_act-failed env ev t h m)

  -- An event of an org that has no row is not acknowledged: a verified subscription event that has an
  -- id, names such an org and was not handled before is answered with 500 on the path of the
  -- provider, whatever the database does, and leaves no org and no subscription changed.
  pub serve-missing_org :
      str_eq req.path_provider name ≡ true
      → verify name verify_webhook req.body req.signature ≡ Verdict.verified ev
      → str_eq ev.id "" ≡ false
      → ev.kind ≡ subscription
      → (ev.org_id == 0) ≡ false
      → any (λ o. o.id == ev.org_id) t.orgs ≡ false
      → is_processed ev.provider ev.id t ≡ false
      → let (t', status) = serve name verify_webhook env req t in
        (status ≡ 500) × (t'.orgs ≡ t.orgs) × (t'.subscriptions ≡ t.subscriptions)
  unfolding serve
  serve-missing_org p v i k o gone h =
      ground (arith, p, v, i, record_and_act-missing_org env ev t k o gone h)
