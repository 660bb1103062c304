-- ===== src/Bus/Blocking.antt =====
-- internal/bus/redis.go: an entry whose handler never succeeds stands in the way of all others.
use pulse_pager.Prelude.{
  ◌≡◌, refl, ap, sym, subst, String, str_eq, Bool, true, false, List, [], ◌∷◌, ◌++◌, All,
  All-append, update_where, inl, inr, if◌then◌else◌,
}
use pulse_pager.Store.Db.{Link-cases}
use pulse_pager.Bus.{
  Message, Record, Stream, Replies, Polled, Entry, to_redis_record, dispatch, dispatch_all,
  read_pending, read_all_pending, poll, reclaim_if_due, read_new, and_then, followed_by,
}

-- What happens to a consumer: a poll, or a message that a producer adds to a topic.
pub data Step : Type 0 where
  polled : Replies → Step
  arrived : String → Message → Step

abbrev pub add_fresh : Message → Stream → Stream
add_fresh m st = record st { fresh = st.fresh ++ m ∷ [] }

-- A stream whose oldest pending entry is m.
abbrev pub stuck_at : String → Message → List Message → List Message → Stream
stuck_at topic m rest fresh = record { topic = topic; pending = m ∷ rest; fresh = fresh }

if_false {ℓ} : {A : Type ℓ} (b : Bool) (x y : A) → b ≡ false → (if b then x else y) ≡ y
if_false b x y e = rw e refl

module _ {ℓ κ} {S : Type ℓ} (handler : Record → S → S × Bool) (topic : String) (m : Message)
    (P : S → Type κ)
    (fails : (s : S)
      → P s
      → ((handler (to_redis_record topic m) s).1 ≡ false)
        × P (handler (to_redis_record topic m) s).0) where
  -- What a poll leaves that has come no further than m.
  record IsStuck (before : List Stream) (p : Polled S) : Type (ℓ ⊔ κ) where
    same : p.streams ≡ before
    still : P p.state
    only : All (λ e. e.1 ≡ m) p.seen
    unacked : p.acked ≡ []
    failed : p.fine ≡ false

  dispatch-stuck :
      (r : Replies) (pending : List Message) (s : S)
      → P s
      → (dispatch handler r topic m pending s ≡ record {
        left = pending;
        state = (handler (to_redis_record topic m) s).0;
        seen = (topic, m) ∷ [];
        acked = [];
        fine = false;
      })
  unfolding dispatch
  dispatch-stuck r pending s h = rw ((fails s h).0, dispatch) refl

  read_pending-IsStuck :
      (r : Replies) (rest fresh : List Message) (s : S)
      → P s
      → IsStuck
          (stuck_at topic m rest fresh ∷ [])
          (read_pending handler r (stuck_at topic m rest fresh) s)
  unfolding read_pending dispatch_all
  read_pending-IsStuck r rest fresh s h = elim (Link-cases (r.reads_pending topic)) [
    | inl e ↦
        rw (e, read_pending, dispatch_all, dispatch-stuck r (m ∷ rest) s h)
          (record {
            same = refl;
            still = (fails s h).1;
            only = (refl, tt);
            unacked = refl;
            failed = refl;
          })
    | inr (inl e) ↦
        rw (e, read_pending)
          (record { same = refl; still = h; only = tt; unacked = refl; failed = refl })
    | inr (inr e) ↦
        rw (e, read_pending)
          (record { same = refl; still = h; only = tt; unacked = refl; failed = refl })
  ]

  and_then-IsStuck :
      (st : Stream) (first : Polled S) (second : S → Polled S) (sts : List Stream)
      → IsStuck (st ∷ []) first
      → IsStuck (st ∷ sts) (and_then first second sts)
  unfolding and_then
  and_then-IsStuck st first second sts i =
      let stop : Polled S = record first { streams = first.streams ++ sts } in
      let it : IsStuck (st ∷ sts) stop = record {
        same = ap (λ x. x ++ sts) i.same;
        still = i.still;
        only = i.only;
        unacked = i.unacked;
        failed = i.failed;
      } in
      subst (IsStuck (st ∷ sts)) (sym (if_false first.fine _ stop i.failed)) it

  followed_by-IsStuck :
      (before : List Stream) (first : Polled S) (second : List Stream → S → Polled S)
      → IsStuck before first
      → IsStuck before (followed_by first second)
  unfolding followed_by
  followed_by-IsStuck before first second i =
      subst (IsStuck before) (sym (if_false first.fine _ first i.failed)) i

  poll-IsStuck :
      (r : Replies) (rest fresh : List Message) (sts : List Stream) (s : S)
      → P s
      → IsStuck
          (stuck_at topic m rest fresh ∷ sts)
          (poll handler r (stuck_at topic m rest fresh ∷ sts) s)
  unfolding poll read_all_pending
  poll-IsStuck r rest fresh sts s h =
      let st = stuck_at topic m rest fresh in
      let first =
        and_then (read_pending handler r st s) (λ s'. read_all_pending handler r sts s') sts in
      let reclaimed : List Stream → S → Polled S = λ now s'. reclaim_if_due handler r now s' in
      followed_by-IsStuck (st ∷ sts) (followed_by first reclaimed)
        (λ now s'. read_new handler r now s')
        (followed_by-IsStuck (st ∷ sts) first reclaimed (
          and_then-IsStuck st (read_pending handler r st s)
            (λ s'. read_all_pending handler r sts s') sts (read_pending-IsStuck r rest fresh s h)))

-- What a consumer has done after some steps.
pub record Done {ℓ} (S : Type ℓ) : Type ℓ where
  pub streams : List Stream
  pub state : S
  pub seen : List Entry
  pub acked : List Entry

module _ {ℓ} {S : Type ℓ} (handler : Record → S → S × Bool) where
  unfoldable pub run : List Step → List Stream → S → Done S
  unfolding poll
  run [] sts s = record { streams = sts; state = s; seen = []; acked = [] }
  run (polled r ∷ steps) sts s =
      let p = poll handler r sts s in
      let rest = run steps p.streams p.state in
      record {
        streams = rest.streams;
        state = rest.state;
        seen = p.seen ++ rest.seen;
        acked = p.acked ++ rest.acked;
      }
  run (arrived topic m ∷ steps) sts s =
      run steps (update_where (λ st. str_eq st.topic topic) (add_fresh m) sts) s

add_fresh-stuck_at :
    (b : Bool) (topic : String) (m x : Message) (rest fresh : List Message)
    → (if b then add_fresh x (stuck_at topic m rest fresh) else stuck_at topic m rest fresh)
      ≡ stuck_at topic m rest (if b then fresh ++ x ∷ [] else fresh)
add_fresh-stuck_at true topic m x rest fresh = refl
add_fresh-stuck_at false topic m x rest fresh = refl

-- The oldest pending entry m of the first stream blocks the consumer: if the handler fails on m in
-- every state that satisfies P, and keeps P, then whatever Redis answers and whatever messages
-- arrive, the handler is called with no other message, and nothing is ever acknowledged.
pub run-blocked {ℓ κ} :
    {S : Type ℓ} (handler : Record → S → S × Bool) (topic : String) (m : Message) (P : S → Type κ)
    → ((s : S)
        → P s
        → ((handler (to_redis_record topic m) s).1 ≡ false)
          × P (handler (to_redis_record topic m) s).0)
    → (steps : List Step) (rest fresh : List Message) (sts : List Stream) (s : S) → P s
    → let done = run handler steps (stuck_at topic m rest fresh ∷ sts) s in
      All (λ e. e.1 ≡ m) done.seen × (done.acked ≡ [])
unfolding run update_where
run-blocked handler topic m P fails [] rest fresh sts s h = (tt, refl)
run-blocked handler topic m P fails (arrived t x ∷ steps) rest fresh sts s h =
    let others = update_where (λ st. str_eq st.topic t) (add_fresh x) sts in
    subst
      (λ st.
        let done = run handler steps (st ∷ others) s in
        All (λ e. e.1 ≡ m) done.seen × (done.acked ≡ []))
      (sym (add_fresh-stuck_at (str_eq topic t) topic m x rest fresh))
      (run-blocked handler topic m P fails steps rest _ others s h)
run-blocked handler topic m P fails (polled r ∷ steps) rest fresh sts s h =
    let st = stuck_at topic m rest fresh in
    let p = poll handler r (st ∷ sts) s in
    let i = poll-IsStuck handler topic m P fails r rest fresh sts s h in
    let later = run-blocked handler topic m P fails steps rest fresh sts p.state i.still in
    rw i.same (All-append (λ e. e.1 ≡ m) p.seen _ i.only later.0, rw i.unacked later.1)
