-- ===== src/Billing/Ingest.antt =====
-- internal/billing/ingest.go: the handler of the payment provider's webhook.
use pulse_pager.Prelude.{
  ℕ, String, str_eq, Bool, true, false, not, Option, none, some, is_some, List, ◌==◌, if◌then◌else◌,
}
use pulse_pager.Domain.{Time}
use pulse_pager.Store.Db.{works, lost, commit_unknown}
use pulse_pager.Entitlements.{Plan, parse_plan, tier1}
use pulse_pager.Billing.{
  Tables, Event, EventKind, EventPayment, Subscription, Payment, Called, Env, unknown, subscription,
  payment, org_not_found, bad_event, foreign_key, unavailable, no_rows, apply_subscription_event,
  apply_payment_event, insert_event, is_processed, mark_billing_event_processed, org_by_customer,
}

-- The plan that act derives from an event.
unfoldable pub plan_of : Event → Plan
plan_of ev = if str_eq ev.status "canceled" then tier1 else parse_plan ev.plan

abbrev pub subscription_of : Time → ℕ → Event → Subscription
subscription_of now org_id ev = record {
  org_id = org_id;
  plan = plan_of ev;
  billing_cycle = ev.cycle;
  status = ev.status;
  provider = ev.provider;
  provider_customer_id = ev.customer_id;
  provider_subscription_id = ev.subscription_id;
  provider_price_id = ev.price_id;
  current_period_end = ev.current_period_end;
  cancel_at_period_end = ev.cancel_at_period_end;
  updated_at = now;
  ended_at = none;
}

abbrev pub payment_of : ℕ → Event → EventPayment → Payment
payment_of org_id ev p = record {
  org_id = org_id;
  provider = ev.provider;
  provider_payment_id = p.payment_id;
  amount = p.paid.minor;
  currency = p.paid.currency;
  status = p.payment_status;
  period = p.payment_period;
  hosted_invoice_url = p.invoice_url;
  refunded_amount = p.refunded.minor;
}

abbrev apply_payment : Env → ℕ → Event → Option EventPayment → Tables → Called
apply_payment env org_id ev none t = (t, some bad_event)
apply_payment env org_id ev (some p) t = apply_payment_event env.applies (payment_of org_id ev p) t

-- act, on the org that the event is of
unfoldable pub act_on : Env → ℕ → Event → Tables → Called
unfolding apply_subscription_event apply_payment_event plan_of
act_on env org_id ev t = elim ev.kind [
  | unknown ↦ (t, none)
  | subscription ↦
      apply_subscription_event env.applies env.now (subscription_of env.now org_id ev) t
  | payment ↦ apply_payment env org_id ev ev.payment t
]

abbrev acts_on : EventKind → Bool
acts_on unknown = false
acts_on subscription = true
acts_on payment = true

-- act, by the customer if the event names no org
unfoldable pub resolve : Env → Event → Tables → Called
unfolding act_on org_by_customer
resolve env ev t =
    let found = org_by_customer ev.provider ev.customer_id t in
    elim env.looks_up [
      | works ↦ if found == 0 then (t, none) else act_on env found ev t
      | lost ↦ (t, some unavailable)
      | commit_unknown ↦ (t, some unavailable)
    ]

unfoldable pub act : Env → Event → Tables → Called
unfolding resolve
act env ev t =
    let by_customer = resolve env ev t in
    let direct = act_on env ev.org_id ev t in
    if not (acts_on ev.kind) then (t, none) else if ev.org_id == 0 then by_customer else direct

-- The tables after a request, and the status of the answer.
abbrev pub Answered : Type 0
Answered = Tables × ℕ

-- ServeHTTP, from the outcome of act on
unfoldable pub settle : Env → Event → Called → Answered
unfolding mark_billing_event_processed
settle env ev (t, failed) =
    let (marked, mark_failed) =
      mark_billing_event_processed env.marks env.now ev.provider ev.id t in
    elim failed [
      | none ↦ (marked, if is_some mark_failed then 500 else 200)
      | some e ↦ elim e [
        | org_not_found ↦ (marked, 200)
        | no_rows ↦ (t, 500)
        | bad_event ↦ (t, 500)
        | foreign_key ↦ (t, 500)
        | unavailable ↦ (t, 500)
      ]
    ]

-- ServeHTTP, from the SELECT of RecordBillingEvent on, once its INSERT has succeeded
unfoldable pub act_if_new : Env → Event → Tables → Answered
unfolding act settle is_processed
act_if_new env ev t =
    let acted = settle env ev (act env ev t) in
    elim env.reads [
      | works ↦ if is_processed ev.provider ev.id t then (t, 200) else acted
      | lost ↦ (t, 500)
      | commit_unknown ↦ (t, 500)
    ]

-- ServeHTTP, from RecordBillingEvent on
unfoldable pub record_and_act : Env → Event → Tables → Answered
unfolding act_if_new insert_event
record_and_act env ev t =
    let (inserted, failed) = insert_event env.inserts ev.provider ev.id t in
    if is_some failed then (inserted, 500) else act_if_new env ev inserted

-- What VerifyWebhook returns: the event, ErrBadSignature, or another error.
pub data Verdict : Type 0 where
  verified : Event → Verdict
  bad_signature bad_webhook : Verdict

-- A request: the provider in its path, its body, or none if it cannot be read or is too large, and
-- its signature.
pub record Request : Type 0 where
  pub path_provider : String
  pub body : Option (List ℕ)
  pub signature : String

-- The provider's adapter.
module _ (name : String) (verify_webhook : List ℕ → String → Verdict) where
  abbrev pub verify : Option (List ℕ) → String → Verdict
  verify none sig = Verdict.bad_webhook
  verify (some body) sig = verify_webhook body sig

  -- ServeHTTP
  unfoldable pub serve : Env → Request → Tables → Answered
  unfolding record_and_act
  serve env req t =
      if not (str_eq req.path_provider name)
      then (t, 404)
      else elim (verify req.body req.signature) [
        | Verdict.bad_webhook ↦ (t, 400)
        | Verdict.bad_signature ↦ (t, 401)
        | Verdict.verified ev ↦ if str_eq ev.id "" then (t, 200) else record_and_act env ev t
      ]
