-- ===== src/Bus.antt =====
-- internal/bus/redis.go, the consumer on Redis Streams: one poll, its reads of pending and of new
-- entries, and what it acknowledges. The handler is a parameter, on a state of its own. A stream is
-- what Redis keeps of it for the group: the entries that were given to this consumer and not yet
-- acknowledged, and those that were given to nobody. Trace headers are left out, and what
-- XAUTOCLAIM takes over from other consumers is given by the Replies of a poll.
pub mod Blocking
pub mod Kept
pub mod Orphans
use pulse_pager.Prelude.{
  ℕ, zero, suc, ◌-◌, String, str_eq, Bool, true, false, not, Option, none, some, List, [], ◌∷◌,
  ◌++◌, ◌==◌, ltb, keep_where, if◌then◌else◌,
}
use pulse_pager.Store.Db.{Link, works, lost, commit_unknown}

-- A stream entry: its place in the stream, and the fields that hold a key and a value.
pub record Message : Type 0 where
  pub id : ℕ
  pub key : Option (List ℕ)
  pub value : Option (List ℕ)

-- Record
pub record Record : Type 0 where
  pub topic : String
  pub key : List ℕ
  pub value : List ℕ

pub record Stream : Type 0 where
  pub topic : String
  pub pending : List Message
  pub fresh : List Message

abbrev or_empty : Option (List ℕ) → List ℕ
or_empty none = []
or_empty (some v) = v

-- toRedisRecord
unfoldable pub to_redis_record : String → Message → Record
to_redis_record topic m = record { topic = topic; key = or_empty m.key; value = or_empty m.value }

-- redisBatch
abbrev pub redis_batch : ℕ
redis_batch = 64

abbrev pub take {ℓ} : {A : Type ℓ} → ℕ → List A → List A
take zero xs = []
take (suc n) [] = []
take (suc n) (x ∷ xs) = x ∷ take n xs

abbrev pub drop {ℓ} : {A : Type ℓ} → ℕ → List A → List A
drop zero xs = xs
drop (suc n) [] = []
drop (suc n) (x ∷ xs) = drop n xs

-- What Redis answers during one poll, by the topic; an XACK is told by the id of the entry.
pub record Replies : Type 0 where
  pub reads_pending : String → Link
  pub reads_new : Link
  pub acks : ℕ → Link
  -- is a reclaim due, and what the calls of XAUTOCLAIM give until one ends the stream or fails
  pub reclaim_due : Bool
  pub claims : String → List (Option (List Message))

-- A message with its topic.
abbrev pub Entry : Type 0
Entry = String × Message

-- What a part of a poll leaves: the entries not acknowledged, the handler's state, the entries that
-- the handler was called with, those that were acknowledged, and whether there was no error.
pub record Round {ℓ} (S : Type ℓ) : Type ℓ where
  pub left : List Message
  pub state : S
  pub seen : List Entry
  pub acked : List Entry
  pub fine : Bool

abbrev pub without : Message → List Message → List Message
without m ms = keep_where (λ x. not (x.id == m.id)) ms

-- XREADGROUP at ">": the new entries are this consumer's from then on.
abbrev pub take_new : Stream → Stream
take_new st = record st {
  pending = st.pending ++ take redis_batch st.fresh;
  fresh = drop redis_batch st.fresh;
}

abbrev pub take_all_new : List Stream → List Stream
take_all_new [] = []
take_all_new (st ∷ sts) = take_new st ∷ take_all_new sts

-- What one or all streams are after a part of a poll.
pub record Polled {ℓ} (S : Type ℓ) : Type ℓ where
  pub streams : List Stream
  pub state : S
  pub seen : List Entry
  pub acked : List Entry
  pub fine : Bool

module _ {ℓ} {S : Type ℓ} where
  abbrev pub untouched : List Stream → S → Bool → Polled S
  untouched streams s fine = record {
    streams = streams;
    state = s;
    seen = [];
    acked = [];
    fine = fine;
  }

  abbrev pub of_round : Stream → Round S → Polled S
  of_round st d = record {
    streams = record st { pending = d.left } ∷ [];
    state = d.state;
    seen = d.seen;
    acked = d.acked;
    fine = d.fine;
  }

  -- One part of a round after the other; the second one only if the first is fine.
  unfoldable pub then_round : Round S → Round S → Round S
  then_round first rest =
      if first.fine
      then record {
        left = rest.left;
        state = rest.state;
        seen = first.seen ++ rest.seen;
        acked = first.acked ++ rest.acked;
        fine = rest.fine;
      }
      else first

  -- One part after the other; the second one only if the first is fine, else its streams stay.
  unfoldable pub and_then : Polled S → (S → Polled S) → List Stream → Polled S
  and_then first second unread =
      let later = second first.state in
      let stop : Polled S = record first { streams = first.streams ++ unread } in
      let both : Polled S = record {
        streams = first.streams ++ later.streams;
        state = later.state;
        seen = first.seen ++ later.seen;
        acked = first.acked ++ later.acked;
        fine = later.fine;
      } in
      if first.fine then both else stop

  -- A part of a poll on all the streams, after another one.
  unfoldable pub followed_by : Polled S → (List Stream → S → Polled S) → Polled S
  followed_by first second =
      let later = second first.streams first.state in
      if first.fine
      then record {
        streams = later.streams;
        state = later.state;
        seen = first.seen ++ later.seen;
        acked = first.acked ++ later.acked;
        fine = later.fine;
      }
      else first

module _ {ℓ} {S : Type ℓ} (handler : Record → S → S × Bool) where
  -- dispatch: the handler, and XACK if it is fine.
  unfoldable pub dispatch : Replies → String → Message → List Message → S → Round S
  unfolding to_redis_record
  dispatch r topic m pending s =
      let (s', good) = handler (to_redis_record topic m) s in
      let seen : List Entry = (topic, m) ∷ [] in
      let kept : Round S = record {
        left = pending;
        state = s';
        seen = seen;
        acked = [];
        fine = false;
      } in
      let gone : Round S = record {
        left = without m pending;
        state = s';
        seen = seen;
        acked = seen;
        fine = true;
      } in
      if not good
      then kept
      else elim (r.acks m.id) [ works ↦ gone | lost ↦ kept | commit_unknown ↦ unsure gone ]
    where
      unsure : Round S → Round S
      unsure d = record d { fine = false }

  -- The messages of one stream in dispatchStreams, or of one page in reclaim, up to the first error.
  unfoldable pub dispatch_all : Replies → String → List Message → List Message → S → Round S
  unfolding dispatch then_round
  dispatch_all r topic [] pending s = record {
    left = pending;
    state = s;
    seen = [];
    acked = [];
    fine = true;
  }
  dispatch_all r topic (m ∷ ms) pending s =
      let first = dispatch r topic m pending s in
      let rest = dispatch_all r topic ms first.left first.state in then_round first rest

  -- readInto at "0": this consumer's own pending entries, the oldest first.
  unfoldable pub read_pending : Replies → Stream → S → Polled S
  unfolding dispatch_all
  read_pending r st s = elim (r.reads_pending st.topic) [
    | works ↦ of_round st (dispatch_all r st.topic (take redis_batch st.pending) st.pending s)
    | lost ↦ untouched (st ∷ []) s false
    | commit_unknown ↦ untouched (st ∷ []) s false
  ]

  -- The first loop of poll.
  unfoldable pub read_all_pending : Replies → List Stream → S → Polled S
  unfolding read_pending and_then
  read_all_pending r [] s = untouched [] s true
  read_all_pending r (st ∷ sts) s =
      and_then (read_pending r st s) (λ s'. read_all_pending r sts s') sts

  -- The loop of reclaim, on the pages of XAUTOCLAIM.
  unfoldable pub reclaim_pages :
      Replies → Stream → List (Option (List Message)) → List Message → S → Round S
  unfolding dispatch_all then_round
  reclaim_pages r st [] pending s = record {
    left = pending;
    state = s;
    seen = [];
    acked = [];
    fine = true;
  }
  reclaim_pages r st (none ∷ pages) pending s = record {
    left = pending;
    state = s;
    seen = [];
    acked = [];
    fine = false;
  }
  reclaim_pages r st (some msgs ∷ pages) pending s =
      let first = dispatch_all r st.topic msgs (pending ++ msgs) s in
      let rest = reclaim_pages r st pages first.left first.state in then_round first rest

  -- The second loop of poll.
  unfoldable pub reclaim_all : Replies → List Stream → S → Polled S
  unfolding reclaim_pages and_then
  reclaim_all r [] s = untouched [] s true
  reclaim_all r (st ∷ sts) s =
      and_then (of_round st (reclaim_pages r st (r.claims st.topic) st.pending s))
        (λ s'. reclaim_all r sts s') sts

  -- dispatchStreams on the reply of readNew, whose entries have been taken.
  unfoldable pub dispatch_new : Replies → List Stream → S → Polled S
  unfolding dispatch_all and_then
  dispatch_new r [] s = untouched [] s true
  dispatch_new r (st ∷ sts) s =
      let now = take_new st in
      and_then (of_round now (dispatch_all r st.topic (take redis_batch st.fresh) now.pending s))
        (λ s'. dispatch_new r sts s') (take_all_new sts)

  -- readNew
  unfoldable pub read_new : Replies → List Stream → S → Polled S
  unfolding dispatch_new
  read_new r sts s = elim r.reads_new [
    | works ↦ dispatch_new r sts s
    | lost ↦ untouched sts s false
    | commit_unknown ↦ untouched (take_all_new sts) s false
  ]

  unfoldable pub reclaim_if_due : Replies → List Stream → S → Polled S
  unfolding reclaim_all
  reclaim_if_due r sts s =
      let reclaimed = reclaim_all r sts s in
      if r.reclaim_due then reclaimed else untouched sts s true

  -- poll
  unfoldable pub poll : Replies → List Stream → S → Polled S
  unfolding read_all_pending reclaim_if_due read_new followed_by
  poll r sts s =
      followed_by (followed_by (read_all_pending r sts s) (λ now s'. reclaim_if_due r now s'))
        (λ now s'. read_new r now s')
