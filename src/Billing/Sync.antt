-- ===== src/Billing/Sync.antt =====
-- internal/billing/ingest.go and internal/store/subscriptions.go: what an event makes of the org.
use pulse_pager.Prelude.{
  ℕ, ◌≡◌, refl, subst, sym, ap, ◌∙◌, String, str_eq, Bool, true, false, none, some, List, [], ◌∷◌,
  arith, ◌==◌, not, ◌&&◌, if◌then◌else◌, eq_iff, find, eq_refl, any, any-append, any-update_where,
  update_where, update_where-set, All, All-append, Bool-cases, inl, inr,
}
use pulse_pager.Store.Db.{works}
use pulse_pager.Entitlements.{Plan, tier1, tier2, tier3, tier_custom, parse_plan}
use pulse_pager.Billing.{
  Tables, Org, Subscription, Event, Env, subscription, transact, of_org, is_live_org, set_plan,
  inserted, updated, upsert_subscription, apply_subscription_event, insert_event, is_processed,
  is_event, mark_billing_event_processed, BillingEvent,
}
use pulse_pager.Billing.Retry.{insert_event-unprocessed}
use pulse_pager.Billing.Ingest.{
  Request, Verdict, verify, plan_of, subscription_of, act_on, act, settle, act_if_new,
  record_and_act, serve,
}

-- The plan that an event calls for: the free one if it cancels or names none of the other three.
abbrev pub owed_plan : Event → Plan
owed_plan ev =
    if not (str_eq ev.status "canceled") && any (str_eq ev.plan) (tier2 ∷ tier3 ∷ tier_custom ∷ [])
    then ev.plan
    else tier1

plan_of-owed_plan : (ev : Event) → plan_of ev ≡ owed_plan ev
unfolding plan_of parse_plan
plan_of-owed_plan ev =
    ground (arith, eq_iff ev.plan tier2, eq_iff ev.plan tier3, eq_iff ev.plan tier_custom)

-- The org's subscription and its plan are what the event says.
pub record IsSynced (org_id : ℕ) (ev : Event) (t : Tables) : Type 0 where
  pub has_row : any (of_org org_id) t.subscriptions ≡ true
  pub subscribed :
      All
        (λ s. of_org org_id s ≡ true → (s.plan ≡ owed_plan ev) × (s.status ≡ ev.status))
        t.subscriptions
  pub planned : All (λ o. is_live_org org_id o ≡ true → o.plan ≡ owed_plan ev) t.orgs

All-none {ℓ} :
    {A : Type ℓ} (P : A → Type 0) (p : A → Bool) (xs : List A)
    → any p xs ≡ false
    → ((x : A) → p x ≡ false → P x)
    → All P xs
All-none P p [] h k = tt
All-none P p (x ∷ xs) h k = elim (Bool-cases (p x)) [
  | inl e ↦ absurd (ground (arith, h, e))
  | inr e ↦ (k x e, All-none P p xs (rw e at h) k)
]

module _ (env : Env) (ev : Event) (org_id : ℕ) (t : Tables) where
  abbrev row : Subscription
  row = subscription_of env.now org_id ev

  upsert-subscribed :
      (any (of_org org_id) (upsert_subscription env.now row t.subscriptions) ≡ true)
      × All
          (λ s. of_org org_id s ≡ true → (s.plan ≡ owed_plan ev) × (s.status ≡ ev.status))
          (upsert_subscription env.now row t.subscriptions)
  unfolding upsert_subscription
  upsert-subscribed = elim (Bool-cases (any (of_org org_id) t.subscriptions)) [
    | inl there ↦ rw there (
      any-update_where (of_org org_id) (of_org org_id) (updated env.now row) (λ s. refl)
            t.subscriptions
          ∙ there,
      update_where-set _ (of_org org_id) (updated env.now row) t.subscriptions
          (λ s e own. (plan_of-owed_plan ev, refl)) (λ s e own. absurd (ground (arith, e, own))),
    )
    | inr missing ↦ rw missing (
      any-append (of_org org_id) t.subscriptions (inserted env.now row ∷ []) ∙ ground arith,
      All-append _ t.subscriptions (inserted env.now row ∷ [])
          (All-none _ (of_org org_id) t.subscriptions missing
            (λ s e own. absurd (ground (arith, e, own))))
          ((λ own. (plan_of-owed_plan ev, refl)), tt),
    )
  ]

  orgs-planned :
      All
        (λ o. is_live_org org_id o ≡ true → o.plan ≡ owed_plan ev)
        (update_where (is_live_org org_id) (set_plan (plan_of ev)) t.orgs)
  orgs-planned =
      update_where-set _ (is_live_org org_id) (set_plan (plan_of ev)) t.orgs
        (λ o e own. plan_of-owed_plan ev) (λ o e own. absurd (ground (arith, e, own)))

  synced : Tables
  synced = record t {
    subscriptions = upsert_subscription env.now row t.subscriptions;
    orgs = update_where (is_live_org org_id) (set_plan (plan_of ev)) t.orgs;
  }

  synced-IsSynced : IsSynced org_id ev synced
  unfolding synced
  synced-IsSynced = record {
    has_row = upsert-subscribed.0;
    subscribed = upsert-subscribed.1;
    planned = orgs-planned;
  }

live-known :
    (org_id : ℕ) (orgs : List Org)
    → any (is_live_org org_id) orgs ≡ true
    → any (λ o. o.id == org_id) orgs ≡ true
live-known org_id [] h = h
live-known org_id (o ∷ os) h = ground (arith, h, live-known org_id os)

act-synced :
    (env : Env) (ev : Event) (t : Tables)
    → ev.kind ≡ subscription
    → (ev.org_id == 0) ≡ false
    → any (is_live_org ev.org_id) t.orgs ≡ true
    → env.applies ≡ works
    → act env ev t ≡ (synced env ev ev.org_id t, none)
unfolding act act_on apply_subscription_event transact synced
act-synced env ev t k o live l = ground (arith, k, o, live, l, live-known ev.org_id t.orgs live)

find-set {ℓ} :
    {A : Type ℓ} (p : A → Bool) (f : A → A)
    → ((x : A) → p (f x) ≡ p x)
    → (xs : List A) → any p xs ≡ true
    → (a : A) × (find p (update_where p f xs) ≡ some (f a))
unfolding find update_where
find-set p f same [] h = absurd (ground (arith, h))
find-set p f same (x ∷ xs) h = elim (Bool-cases (p x)) [
  | inl e ↦ (x, rw e (rw (same x) (rw e refl)))
  | inr e ↦ let (a, found) = find-set p f same xs (rw e at h) in (a, rw e (rw e found))
]

mark-processed :
    (env : Env) (ev : Event) (t : Tables)
    → any (is_event ev.provider ev.id) t.inbox ≡ true
    → env.marks ≡ works
    → (mark_billing_event_processed env.marks env.now ev.provider ev.id t).1 ≡ none
      × (is_processed ev.provider ev.id
            (mark_billing_event_processed env.marks env.now ev.provider ev.id t).0
          ≡ true)
unfolding mark_billing_event_processed is_processed
mark-processed env ev t there l =
    let (e, found) =
      find-set (is_event ev.provider ev.id) (λ x. record x { processed_at = some env.now })
        (λ x. refl) t.inbox there in
    rw l (refl, rw found refl)

insert_event-there :
    (env : Env) (ev : Event) (t : Tables)
    → env.inserts ≡ works
    → let (t', failed) = insert_event env.inserts ev.provider ev.id t in
      (failed ≡ none) × (any (is_event ev.provider ev.id) t'.inbox ≡ true) × (t'.orgs ≡ t.orgs)
unfolding insert_event
insert_event-there env ev t l =
    let new : BillingEvent = record {
      provider = ev.provider;
      event_id = ev.id;
      processed_at = none;
    } in
    ground (
      arith,
      l,
      eq_refl ev.provider,
      eq_refl ev.id,
      any-append (is_event ev.provider ev.id) t.inbox (new ∷ []),
    )

-- The event is acknowledged, applied and stamped.
pub record IsSettled (org_id : ℕ) (ev : Event) (a : Tables × ℕ) : Type 0 where
  pub answered : a.1 ≡ 200
  pub in_sync : IsSynced org_id ev a.0
  pub stamped : is_processed ev.provider ev.id a.0 ≡ true

settle-IsSettled :
    (env : Env) (ev : Event) (org_id : ℕ) (t : Tables)
    → IsSynced org_id ev t
    → any (is_event ev.provider ev.id) t.inbox ≡ true
    → env.marks ≡ works
    → IsSettled org_id ev (settle env ev (t, none))
unfolding settle mark_billing_event_processed
settle-IsSettled env ev org_id t i there l =
    let (stamped, processed) = mark-processed env ev t there l in
    record {
      answered = rw l refl;
      in_sync = record {
        has_row = rw l i.has_row;
        subscribed = rw l i.subscribed;
        planned = rw l i.planned;
      };
      stamped = processed;
    }

-- Every connection of the call works.
pub record AllWork (env : Env) : Type 0 where
  pub inserts : env.inserts ≡ works
  pub reads : env.reads ≡ works
  pub applies : env.applies ≡ works
  pub marks : env.marks ≡ works

act_if_new-IsSettled :
    (env : Env) (ev : Event) (t : Tables)
    → AllWork env
    → ev.kind ≡ subscription
    → (ev.org_id == 0) ≡ false
    → any (is_live_org ev.org_id) t.orgs ≡ true
    → any (is_event ev.provider ev.id) t.inbox ≡ true
    → is_processed ev.provider ev.id t ≡ false
    → IsSettled ev.org_id ev (act_if_new env ev t)
unfolding act_if_new synced
act_if_new-IsSettled env ev t w k o live there new =
    let i = synced-IsSynced env ev ev.org_id t in
    subst (IsSettled ev.org_id ev)
      (sym (ground (arith, w.reads, new, act-synced env ev t k o live w.applies)))
      (settle-IsSettled env ev ev.org_id (synced env ev ev.org_id t) i there w.marks)

record_and_act-IsSettled :
    (env : Env) (ev : Event) (t : Tables)
    → AllWork env
    → ev.kind ≡ subscription
    → (ev.org_id == 0) ≡ false
    → any (is_live_org ev.org_id) t.orgs ≡ true
    → is_processed ev.provider ev.id t ≡ false
    → IsSettled ev.org_id ev (record_and_act env ev t)
unfolding record_and_act
record_and_act-IsSettled env ev t w k o live new =
    let (done, there, orgs) = insert_event-there env ev t w.inserts in
    let t' = (insert_event env.inserts ev.provider ev.id t).0 in
    subst (IsSettled ev.org_id ev) (sym (ground (arith, done))) (
      act_if_new-IsSettled env ev t' w k o (ap (any (is_live_org ev.org_id)) orgs ∙ live) there
        (insert_event-unprocessed env ev t new))

-- A verified subscription event that has an id, names an org that is not deleted and was not handled
-- before, on the path of the provider, is answered with 200 when every connection works, and stamped; the org's one subscription then has
-- the event's status, and it and the org have one plan: the free one if the event cancels or names
-- no known plan, and otherwise the event's.
pub serve-IsSettled :
    (name : String) (verify_webhook : List ℕ → String → Verdict) (env : Env) (req : Request)
    (ev : Event) (t : Tables)
    → str_eq req.path_provider name ≡ true
    → verify name verify_webhook req.body req.signature ≡ Verdict.verified ev
    → str_eq ev.id "" ≡ false
    → AllWork env
    → ev.kind ≡ subscription
    → (ev.org_id == 0) ≡ false
    → any (is_live_org ev.org_id) t.orgs ≡ true
    → is_processed ev.provider ev.id t ≡ false
    → IsSettled ev.org_id ev (serve name verify_webhook env req t)
unfolding serve
serve-IsSettled name verify_webhook env req ev t p v i w k o live new =
    subst (IsSettled ev.org_id ev) (sym (ground (arith, p, v, i)))
      (record_and_act-IsSettled env ev t w k o live new)
