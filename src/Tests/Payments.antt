-- ===== src/Tests/Payments.antt =====
-- The theorems on internal/billing and internal/store/subscriptions.go, at concrete values.
use pulse_pager.Prelude.{
  ℕ, ◌≡◌, refl, String, false, Option, none, some, List, [], ◌∷◌, arith, find,
}
use pulse_pager.Store.Db.{works, lost, Link}
use pulse_pager.Domain.{Time}
use pulse_pager.Billing.{Tables, Org, Event, EventKind, Env, is_processed}
use pulse_pager.Billing.Ingest.{Request, Verdict, serve, subscription_of}
use pulse_pager.Billing.Redone.{serve_again}
use pulse_pager.Billing.Sync.{IsSettled, AllWork, serve-IsSettled}
use pulse_pager.Billing.Retry.{serve-processed, serve-missing_org}
use pulse_pager.Billing.Anchor.{Write, HasEnded, write_all, write_all-HasEnded}
use pulse_pager.Tests.{noon}

abbrev event : String → Event
event status = record {
  id = "evt_1";
  kind = EventKind.subscription;
  provider = "stub";
  org_id = 7;
  customer_id = "ctm_1";
  subscription_id = "sub_1";
  price_id = "pri_1";
  plan = "tier2";
  cycle = "monthly";
  status = status;
  current_period_end = none;
  cancel_at_period_end = false;
  payment = none;
}

-- The body of a request says nothing here: each is of the same event.
abbrev verifies : List ℕ → String → Verdict
verifies body signature = Verdict.verified (event "active")

abbrev request : Request
request = record { path_provider = "stub"; body = some []; signature = "sig" }

abbrev env_with : Link → Env
env_with applies = record {
  inserts = works;
  reads = works;
  looks_up = works;
  applies = applies;
  marks = works;
  now = noon;
}

env_with-AllWork : AllWork (env_with works)
env_with-AllWork = record { inserts = refl; reads = refl; applies = refl; marks = refl }

abbrev with_orgs : List Org → Option Time → Tables
with_orgs orgs processed_at = record {
  orgs = orgs;
  subscriptions = [];
  payments = [];
  inbox = record { provider = "stub"; event_id = "evt_1"; processed_at = processed_at } ∷ [];
}

abbrev free_org : Org
free_org = record { id = 7; plan = "tier1"; deleted_at = none }

serve-IsSettled_example :
    IsSettled 7
      (event "active")
      (serve "stub" verifies (env_with works) request (with_orgs (free_org ∷ []) none))
unfolding is_processed find
serve-IsSettled_example =
    serve-IsSettled "stub" verifies (env_with works) request (event "active")
      (with_orgs (free_org ∷ []) none) refl refl refl env_with-AllWork refl refl refl refl

serve-processed_example :
    (serve "stub" verifies (env_with works) request (with_orgs (free_org ∷ []) (some noon))).0
    ≡ with_orgs (free_org ∷ []) (some noon)
unfolding is_processed find
serve-processed_example =
    serve-processed "stub" verifies (env_with works) request (event "active")
      (with_orgs (free_org ∷ []) (some noon)) refl refl

serve_again_example : IsSettled 7 (event "active") (
    serve "stub" verifies
      (env_with works)
      request
      (serve "stub" verifies (env_with lost) request (with_orgs (free_org ∷ []) none)).0)
unfolding is_processed find serve
serve_again_example =
    serve_again "stub" verifies (env_with lost) request (event "active")
      (with_orgs (free_org ∷ []) none) (env_with works) refl refl refl refl refl refl refl
      (λ e. ground (arith, e)) refl env_with-AllWork

serve-missing_org_example :
    let (t', status) = serve "stub" verifies (env_with works) request (with_orgs [] none) in
    (status ≡ 500) × (t'.orgs ≡ []) × (t'.subscriptions ≡ [])
unfolding is_processed find
serve-missing_org_example =
    serve-missing_org "stub" verifies (env_with works) request (event "active") (with_orgs [] none)
      refl refl refl refl refl refl refl

-- A subscription that ended at the first second.
abbrev ended : Tables
ended = record {
  orgs = free_org ∷ [];
  subscriptions =
      record (subscription_of noon 7 (event "canceled")) { plan = "tier1"; ended_at = some 1 } ∷ [];
  payments = [];
  inbox = [];
}

abbrev late_writes : List Write
late_writes =
    Write.event works noon (subscription_of noon 7 (event "past_due"))
    ∷ Write.cancel_now works noon 7
    ∷ []

ended-HasEnded : HasEnded 7 1 ended.subscriptions
ended-HasEnded = record { has_row = refl; ended = ((λ e. (refl, refl)), tt) }

write_all-HasEnded_example : HasEnded 7 1 (write_all late_writes ended).subscriptions
write_all-HasEnded_example =
    write_all-HasEnded 7 1 late_writes ended (refl, (refl, tt)) ended-HasEnded
