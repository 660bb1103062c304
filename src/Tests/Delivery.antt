-- ===== src/Tests/Delivery.antt =====
-- The theorems on internal/bus/redis.go, at concrete values.
use pulse_pager.Prelude.{
  ℕ, suc, ◌≡◌, refl, Bool, true, false, Option, none, some, List, [], ◌∷◌, ltb, All, find,
}
use pulse_pager.Store.Db.{works, lost, Link}
use pulse_pager.Alerting.Service.{CheckResultEvent}
use pulse_pager.Bus.{Message, Record, Stream, Replies, poll}
use pulse_pager.Bus.Blocking.{Step, stuck_at, run}
use pulse_pager.Bus.Kept.{IsKept}
use pulse_pager.Bus.Kept.Polls.{poll-IsKept}
use pulse_pager.Bus.Orphans.{alerting_handler, orphan_blocks}
use pulse_pager.Tests.{event_of, failed_check, empty_db, env_of}

abbrev message : ℕ → Message
message id = record { id = id; key = some (b'1' ∷ []); value = some (id ∷ []) }

-- The acknowledgement of the first entry is lost.
abbrev replies : Replies
replies = record {
  reads_pending = λ topic. works;
  reads_new = works;
  acks = λ id. if_first (ltb id 2);
  reclaim_due = true;
  claims = λ topic. some (message 9 ∷ []) ∷ none ∷ [];
}
  where
    if_first : Bool → Link
    if_first true = lost
    if_first false = works

-- Counts the calls, and fails on a value below 2.
abbrev counting : Record → ℕ → ℕ × Bool
counting rec calls = (suc calls, not_first rec.value)
  where
    not_first : List ℕ → Bool
    not_first [] = false
    not_first (x ∷ xs) = ltb 1 x

abbrev results : Stream
results = record {
  topic = "check.results";
  pending = message 2 ∷ message 3 ∷ [];
  fresh = message 4 ∷ [];
}

poll-IsKept_example :
    IsKept counting replies (results ∷ []) (poll counting replies (results ∷ []) 0)
poll-IsKept_example = poll-IsKept counting replies (results ∷ []) 0

abbrev decode : List ℕ → Option CheckResultEvent
decode payload = some (event_of failed_check)

abbrev same_bytes : List ℕ → List ℕ
same_bytes bytes = bytes

abbrev steps : List Step
steps = Step.polled replies ∷ Step.arrived "check.results" (message 5) ∷ Step.polled replies ∷ []

orphan_blocks_example :
    let done =
      run
        (alerting_handler decode same_bytes (λ call. env_of works true))
        steps
        (stuck_at "check.results" (message 1) (message 2 ∷ []) [] ∷ [])
        (empty_db, 0) in
    All (λ e. e.1 ≡ message 1) done.seen × (done.acked ≡ [])
unfolding find
orphan_blocks_example =
    orphan_blocks decode same_bytes (λ call. env_of works true) "check.results" (message 1)
      (event_of failed_check) steps (message 2 ∷ []) [] empty_db refl refl refl
