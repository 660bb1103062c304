-- ===== src/Billing.antt =====
-- internal/billing/ingest.go and billing.go, with internal/store/subscriptions.go, payments.go and
-- billing_events.go: the webhook of the payment provider. What the provider's adapter makes of a
-- request is the parameter `verify_webhook`. Tables are lists, and a statement or a transaction
-- ends as a Link says. The raw payload, the log and the answer's text are left out, as are
-- reading a subscription and the trial check. Ingest models the handler.
pub mod Ingest
pub mod Sync
pub mod Redone
pub mod Anchor
pub mod Retry
use pulse_pager.Prelude.{
  ℕ, ◌+◌, String, str_eq, Bool, true, false, not, ◌&&◌, ◌||◌, Option, none, some, is_some, List, [],
  ◌∷◌, ◌++◌, ◌==◌, any, find, update_where, map_some, if◌then◌else◌,
}
use pulse_pager.Domain.{Time}
use pulse_pager.Store.Db.{Link, works, lost, commit_unknown}
use pulse_pager.Entitlements.{Plan, parse_plan, tier1}

pub record Org : Type 0 where
  pub id : ℕ
  pub plan : Plan
  pub deleted_at : Option Time

-- domain.Subscription, with the column ended_at
pub record Subscription : Type 0 where
  pub org_id : ℕ
  pub plan : Plan
  pub billing_cycle : String
  pub status : String
  pub provider : String
  pub provider_customer_id : String
  pub provider_subscription_id : String
  pub provider_price_id : String
  pub current_period_end : Option Time
  pub cancel_at_period_end : Bool
  pub updated_at : Time
  pub ended_at : Option Time

-- Money
pub record Money : Type 0 where
  pub minor : ℕ
  pub currency : String

-- domain.Payment
pub record Payment : Type 0 where
  pub org_id : ℕ
  pub provider : String
  pub provider_payment_id : String
  pub amount : ℕ
  pub currency : String
  pub status : String
  pub period : String
  pub hosted_invoice_url : String
  pub refunded_amount : ℕ

-- A row of billing_events.
pub record BillingEvent : Type 0 where
  pub provider : String
  pub event_id : String
  pub processed_at : Option Time

pub record Tables : Type 0 where
  pub orgs : List Org
  pub subscriptions : List Subscription
  pub payments : List Payment
  pub inbox : List BillingEvent

pub data EventKind : Type 0 where
  unknown subscription payment : EventKind

pub record EventPayment : Type 0 where
  pub payment_id : String
  pub paid : Money
  pub payment_status : String
  pub payment_period : String
  pub invoice_url : String
  pub refunded : Money

-- Event
pub record Event : Type 0 where
  pub id : String
  pub kind : EventKind
  pub provider : String
  pub org_id : ℕ
  pub customer_id : String
  pub subscription_id : String
  pub price_id : String
  pub plan : String
  pub cycle : String
  pub status : String
  pub current_period_end : Option Time
  pub cancel_at_period_end : Bool
  pub payment : Option EventPayment

-- What a call of the store returns in place of nil.
pub data Failure : Type 0 where
  org_not_found no_rows bad_event foreign_key unavailable : Failure

-- The tables after a call, and its error.
abbrev pub Called : Type 0
Called = Tables × Option Failure

-- A transaction whose body leaves the tables `after` or fails.
unfoldable pub transact : Link → Tables → Called → Called
transact works before (after, none) = (after, none)
transact works before (after, some e) = (before, some e)
transact lost before _ = (before, some unavailable)
transact commit_unknown before (after, none) = (after, some unavailable)
transact commit_unknown before (after, some e) = (before, some e)

-- status IN ('active','trialing')
abbrev pub is_active : String → Bool
is_active status = str_eq status "active" || str_eq status "trialing"

abbrev pub of_org : ℕ → Subscription → Bool
of_org org_id s = s.org_id == org_id

-- The row of an INSERT, at the time `now`.
abbrev pub inserted : Time → Subscription → Subscription
inserted now s = record s {
  updated_at = now;
  ended_at = if is_active s.status then none else some now;
}

-- The row `old` after ON CONFLICT (org_id) DO UPDATE.
abbrev pub updated : Time → Subscription → Subscription → Subscription
updated now s old = record s {
  org_id = old.org_id;
  updated_at = now;
  ended_at =
      if is_active s.status then none else if is_active old.status then some now else old.ended_at;
}

-- upsertSubscriptionTx
unfoldable pub upsert_subscription : Time → Subscription → List Subscription → List Subscription
upsert_subscription now s rows =
    if any (of_org s.org_id) rows
    then update_where (of_org s.org_id) (updated now s) rows
    else rows ++ inserted now s ∷ []

-- WHERE id = $1 AND deleted_at IS NULL
abbrev pub is_live_org : ℕ → Org → Bool
is_live_org id o = o.id == id && not (is_some o.deleted_at)

abbrev pub set_plan : Plan → Org → Org
set_plan plan o = record o { plan = plan }

-- ApplySubscriptionEvent: the upsert, whose org_id references organizations, and then the plan.
unfoldable pub apply_subscription_event : Link → Time → Subscription → Tables → Called
unfolding upsert_subscription transact
apply_subscription_event link now s t = transact link t (
    if not (any (λ o. o.id == s.org_id) t.orgs)
    then (t, some foreign_key)
    else if any (is_live_org s.org_id) t.orgs
    then (
      record t {
        subscriptions = upsert_subscription now s t.subscriptions;
        orgs = update_where (is_live_org s.org_id) (set_plan s.plan) t.orgs;
      },
      none,
    )
    else (t, some org_not_found))

abbrev pub same_payment : Payment → Payment → Bool
same_payment a b =
    str_eq a.provider b.provider && str_eq a.provider_payment_id b.provider_payment_id

-- ApplyPaymentEvent
unfoldable pub apply_payment_event : Link → Payment → Tables → Called
unfolding transact
apply_payment_event link p t =
    let written =
      if any (same_payment p) t.payments
      then update_where (same_payment p) (λ old. record p { org_id = old.org_id }) t.payments
      else t.payments ++ p ∷ [] in
    transact link t (
      if any (is_live_org p.org_id) t.orgs
      then (record t { payments = written }, none)
      else (t, some org_not_found))

-- UpdateSubscriptionPlan, SetSubscriptionCancelAtPeriodEnd and CancelSubscriptionNow write the row
-- of an org, which must be there.
abbrev pub write_row : ℕ → (Subscription → Subscription) → Tables → Called
write_row org_id f t =
    if any (of_org org_id) t.subscriptions
    then (record t { subscriptions = update_where (of_org org_id) f t.subscriptions }, none)
    else (t, some no_rows)

unfoldable pub update_subscription_plan : Link → Time → ℕ → Plan → String → String → Tables → Called
unfolding transact
update_subscription_plan link now org_id plan cycle price t = transact link t (
    write_row org_id
      (λ s. record s {
        plan = plan;
        billing_cycle = cycle;
        provider_price_id = price;
        updated_at = now;
      })
      t)

unfoldable pub set_subscription_cancel_at_period_end : Link → Time → ℕ → Tables → Called
unfolding transact
set_subscription_cancel_at_period_end link now org_id t =
    transact link t
      (write_row org_id (λ s. record s { cancel_at_period_end = true; updated_at = now }) t)

abbrev pub canceled_row : Time → Subscription → Subscription
canceled_row now s = record s {
  status = "canceled";
  cancel_at_period_end = false;
  updated_at = now;
  ended_at = if is_active s.status then some now else s.ended_at;
}

unfoldable pub cancel_subscription_now : Link → Time → ℕ → Tables → Called
unfolding transact
cancel_subscription_now link now org_id t =
    let (t', failed) = write_row org_id (canceled_row now) t in
    transact link t
      (record t' { orgs = update_where (is_live_org org_id) (set_plan tier1) t.orgs }, failed)

-- The row of (provider, provider_event_id).
abbrev pub is_event : String → String → BillingEvent → Bool
is_event provider id e = str_eq e.provider provider && str_eq e.event_id id

-- A statement by itself: it takes effect or does not, and its answer arrives or does not.
abbrev pub statement : Link → Tables → Tables → Called
statement works before after = (after, none)
statement lost before after = (before, some unavailable)
statement commit_unknown before after = (after, some unavailable)

-- The INSERT of RecordBillingEvent
unfoldable pub insert_event : Link → String → String → Tables → Called
insert_event link provider id t =
    let row : BillingEvent = record { provider = provider; event_id = id; processed_at = none } in
    if any (is_event provider id) t.inbox
    then statement link t t
    else statement link t (record t { inbox = t.inbox ++ row ∷ [] })

abbrev processed_of : Option BillingEvent → Bool
processed_of none = false
processed_of (some e) = is_some e.processed_at

-- Has the event been handled?
unfoldable pub is_processed : String → String → Tables → Bool
is_processed provider id t = processed_of (find (is_event provider id) t.inbox)

-- MarkBillingEventProcessed
unfoldable pub mark_billing_event_processed : Link → Time → String → String → Tables → Called
mark_billing_event_processed link now provider id t = statement link t (record t {
  inbox = update_where (is_event provider id) (λ e. record e { processed_at = some now }) t.inbox;
})

-- OrgByCustomer: 0 if no subscription matches
unfoldable pub org_by_customer : String → String → Tables → ℕ
org_by_customer provider customer t = id_of (
    find (λ s. str_eq s.provider provider && str_eq s.provider_customer_id customer)
      t.subscriptions)
  where
    id_of : Option Subscription → ℕ
    id_of none = 0
    id_of (some s) = s.org_id

pub record Env : Type 0 where
  pub inserts : Link
  pub reads : Link
  pub looks_up : Link
  pub applies : Link
  pub marks : Link
  pub now : Time
