-- ===== src/Bus/Kept/Polls.antt =====
-- internal/bus/redis.go: a poll acknowledges what was handled, and loses nothing else.
use pulse_pager.Prelude.{
  ℕ, ◌≡◌, refl, subst, String, str_eq, eq_iff, Bool, true, false, ◌||◌, List, [], ◌∷◌, ◌++◌, arith,
  any, any-append, All-append, Bool-cases, inl, inr, ◌⊎◌, ◌&&◌, if◌then◌else◌,
}
use pulse_pager.Store.Db.{Link, Link-cases, works, lost, commit_unknown}
use pulse_pager.Bus.{
  Record, Stream, Replies, Round, Polled, dispatch_all, read_pending, read_all_pending,
  reclaim_pages, reclaim_all, reclaim_if_due, dispatch_new, read_new, poll, untouched, and_then,
  followed_by, of_round, take, take_new, take_all_new, redis_batch,
}
use pulse_pager.Bus.Kept.{
  has_id, holds_in, holds, is_entry, take_new-holds, or_mono, take_all_new-holds, WasHandled,
  IsKept, IsKeptRound, dispatch_all-IsKeptRound, reclaim_pages-IsKeptRound,
}

-- What of a stream is left or acknowledged, by the entries before.
left_bools :
    (eq before fresh left acked : Bool)
    → (eq ≡ true → before ≡ true → (left || acked) ≡ true)
    → (if eq && (before || fresh) then true else false) ≡ true
    → ((if eq && (left || fresh) then true else false) || acked) ≡ true
left_bools eq before fresh left acked h e = ground arith

append_bools :
    (a b c d : Bool) (whole acked : Bool)
    → whole ≡ (if a then true else b)
    → acked ≡ (if c then true else d)
    → ((a || c) ≡ true) ⊎ ((b || d) ≡ true)
    → (whole || acked) ≡ true
append_bools a b c d whole acked e f h = ground arith

after_bools :
    (a b c d acked : Bool)
    → acked ≡ (if c then true else d)
    → (a || c) ≡ true
    → (a ≡ true → (b || d) ≡ true)
    → (b || acked) ≡ true
after_bools a b c d acked e h k = ground arith

⊎-map {ℓ} : {A B C D : Type ℓ} → (A → C) → (B → D) → A ⊎ B → C ⊎ D
⊎-map f g (inl a) = inl (f a)
⊎-map f g (inr b) = inr (g b)

module _ {ℓ} {S : Type ℓ} (handler : Record → S → S × Bool) (r : Replies) where
  untouched-IsKept :
      (before after : List Stream) (s : S) (b : Bool)
      → ((t : String) (i : ℕ) → holds t i before ≡ true → holds t i after ≡ true)
      → IsKept handler r before (untouched after s b)
  untouched-IsKept before after s b h = record {
    keeps = λ t i e. ground (arith, h t i e);
    handled = tt;
  }

  of_round-IsKept :
      (st : Stream) (d : Round S)
      → IsKeptRound handler r st.topic st.pending d
      → IsKept handler r (st ∷ []) (of_round st d)
  of_round-IsKept st d k = record {
    keeps = λ t i h.
        left_bools (str_eq st.topic t) (any (has_id i) st.pending) (any (has_id i) st.fresh)
          (any (has_id i) d.left) (any (is_entry t i) d.acked)
          (λ same held.
            subst (λ x. (any (has_id i) d.left || any (is_entry x i) d.acked) ≡ true)
              ((eq_iff st.topic t).0 same) (k.keeps i held))
          h;
    handled = k.handled;
  }

  and_then-IsKept :
      (st : Stream) (sts unread : List Stream) (first : Polled S) (second : S → Polled S)
      → IsKept handler r (st ∷ []) first
      → ((s : S) → IsKept handler r sts (second s))
      → ((t : String) (i : ℕ) → holds t i sts ≡ true → holds t i unread ≡ true)
      → IsKept handler r (st ∷ sts) (and_then first second unread)
  unfolding and_then
  and_then-IsKept st sts unread first second k l u = by_case first.fine
    where
      stop : Polled S
      stop = record first { streams = first.streams ++ unread }

      both : Polled S
      both = record {
        streams = first.streams ++ (second first.state).streams;
        state = (second first.state).state;
        seen = first.seen ++ (second first.state).seen;
        acked = first.acked ++ (second first.state).acked;
        fine = (second first.state).fine;
      }

      split :
          (t : String) (i : ℕ)
          → holds t i (st ∷ sts) ≡ true
          → (holds t i (st ∷ []) ≡ true) ⊎ (holds t i sts ≡ true)
      split t i h = elim (Bool-cases (holds_in t i st)) [
        | inl yes_in ↦ inl (rw yes_in refl)
        | inr not_in ↦ inr (rw not_in at h)
      ]

      kept_stop : IsKept handler r (st ∷ sts) stop
      kept_stop = record {
        keeps = λ t i h.
            append_bools (holds t i first.streams) (holds t i unread)
              (any (is_entry t i) first.acked) false _ _
              (any-append (holds_in t i) first.streams unread) (ground arith)
              (⊎-map (k.keeps t i) (λ e. ground (arith, u t i e)) (split t i h));
        handled = k.handled;
      }

      kept_both : IsKept handler r (st ∷ sts) both
      kept_both = record {
        keeps = λ t i h.
            append_bools (holds t i first.streams) (holds t i (second first.state).streams)
              (any (is_entry t i) first.acked) (any (is_entry t i) (second first.state).acked) _ _
              (any-append (holds_in t i) first.streams (second first.state).streams)
              (any-append (is_entry t i) first.acked (second first.state).acked)
              (⊎-map (k.keeps t i) ((l first.state).keeps t i) (split t i h));
        handled =
            All-append (WasHandled handler r) first.acked (second first.state).acked k.handled
              (l first.state).handled;
      }

      by_case : (b : Bool) → IsKept handler r (st ∷ sts) (if b then both else stop)
      by_case true = kept_both
      by_case false = kept_stop

  followed_by-IsKept :
      (before : List Stream) (first : Polled S) (second : List Stream → S → Polled S)
      → IsKept handler r before first
      → ((sts : List Stream) (s : S) → IsKept handler r sts (second sts s))
      → IsKept handler r before (followed_by first second)
  unfolding followed_by
  followed_by-IsKept before first second k l = by_case first.fine
    where
      later : Polled S
      later = second first.streams first.state

      both : Polled S
      both = record {
        streams = later.streams;
        state = later.state;
        seen = first.seen ++ later.seen;
        acked = first.acked ++ later.acked;
        fine = later.fine;
      }

      kept : IsKept handler r before both
      kept = record {
        keeps = λ t i h.
            after_bools (holds t i first.streams) (holds t i later.streams)
              (any (is_entry t i) first.acked) (any (is_entry t i) later.acked) _
              (any-append (is_entry t i) first.acked later.acked) (k.keeps t i h)
              ((l first.streams first.state).keeps t i);
        handled =
            All-append (WasHandled handler r) first.acked later.acked k.handled
              (l first.streams first.state).handled;
      }

      by_case : (b : Bool) → IsKept handler r before (if b then both else first)
      by_case true = kept
      by_case false = k

  refuse-IsKept : (sts : List Stream) (s : S) → IsKept handler r sts (untouched sts s false)
  refuse-IsKept sts s = untouched-IsKept sts sts s false (λ t i e. e)

  read_pending-IsKept :
      (st : Stream) (s : S) → IsKept handler r (st ∷ []) (read_pending handler r st s)
  unfolding read_pending
  read_pending-IsKept st s = elim (Link-cases (r.reads_pending st.topic)) [
    | inl e ↦
        rw (e, read_pending)
          (of_round-IsKept st _ (
            dispatch_all-IsKeptRound handler r st.topic (take redis_batch st.pending) st.pending s))
    | inr (inl e) ↦ rw (e, read_pending) (refuse-IsKept (st ∷ []) s)
    | inr (inr e) ↦ rw (e, read_pending) (refuse-IsKept (st ∷ []) s)
  ]

  read_all_pending-IsKept :
      (sts : List Stream) (s : S) → IsKept handler r sts (read_all_pending handler r sts s)
  unfolding read_all_pending
  read_all_pending-IsKept [] s = untouched-IsKept [] [] s true (λ t i e. e)
  read_all_pending-IsKept (st ∷ sts) s =
      and_then-IsKept st sts sts (read_pending handler r st s)
        (λ s'. read_all_pending handler r sts s') (read_pending-IsKept st s)
        (λ s'. read_all_pending-IsKept sts s') (λ t i e. e)

  reclaim_all-IsKept :
      (sts : List Stream) (s : S) → IsKept handler r sts (reclaim_all handler r sts s)
  unfolding reclaim_all
  reclaim_all-IsKept [] s = untouched-IsKept [] [] s true (λ t i e. e)
  reclaim_all-IsKept (st ∷ sts) s =
      let round = reclaim_pages handler r st (r.claims st.topic) st.pending s in
      and_then-IsKept st sts sts (of_round st round) (λ s'. reclaim_all handler r sts s')
        (of_round-IsKept st round
          (reclaim_pages-IsKeptRound handler r st (r.claims st.topic) st.pending s))
        (λ s'. reclaim_all-IsKept sts s') (λ t i e. e)

  reclaim_if_due-IsKept :
      (sts : List Stream) (s : S) → IsKept handler r sts (reclaim_if_due handler r sts s)
  unfolding reclaim_if_due
  reclaim_if_due-IsKept sts s = by_case r.reclaim_due
    where
      by_case :
          (b : Bool)
          → IsKept handler r sts (if b then reclaim_all handler r sts s else untouched sts s true)
      by_case true = reclaim_all-IsKept sts s
      by_case false = untouched-IsKept sts sts s true (λ t i e. e)

  dispatch_new-IsKept :
      (sts : List Stream) (s : S) → IsKept handler r sts (dispatch_new handler r sts s)
  unfolding dispatch_new
  dispatch_new-IsKept [] s = untouched-IsKept [] [] s true (λ t i e. e)
  dispatch_new-IsKept (st ∷ sts) s =
      let now = take_new st in
      let round = dispatch_all handler r st.topic (take redis_batch st.fresh) now.pending s in
      let k =
        of_round-IsKept now round
          (dispatch_all-IsKeptRound handler r st.topic (take redis_batch st.fresh) now.pending s) in
      and_then-IsKept st sts (take_all_new sts) (of_round now round)
        (λ s'. dispatch_new handler r sts s')
        (record {
          keeps = λ t i h. k.keeps t i (or_mono _ false _ false (take_new-holds t i st) (λ e. e) h);
          handled = k.handled;
        })
        (λ s'. dispatch_new-IsKept sts s') (λ t i e. take_all_new-holds t i sts e)

  read_new-IsKept : (sts : List Stream) (s : S) → IsKept handler r sts (read_new handler r sts s)
  unfolding read_new
  read_new-IsKept sts s = by_case r.reads_new
    where
      answer : Link → Polled S
      answer works = dispatch_new handler r sts s
      answer lost = untouched sts s false
      answer commit_unknown = untouched (take_all_new sts) s false

      by_case : (l : Link) → IsKept handler r sts (answer l)
      by_case works = dispatch_new-IsKept sts s
      by_case lost = refuse-IsKept sts s
      by_case commit_unknown =
          untouched-IsKept sts (take_all_new sts) s false (λ t i h. take_all_new-holds t i sts h)

-- Whatever the handler does, and whatever Redis answers or fails to answer, a poll acknowledges
-- only entries on which the handler has succeeded, and every other entry that was pending or new
-- before it is still pending or new after it.
pub poll-IsKept {ℓ} :
    {S : Type ℓ} (handler : Record → S → S × Bool) (r : Replies) (sts : List Stream) (s : S)
    → IsKept handler r sts (poll handler r sts s)
unfolding poll
poll-IsKept handler r sts s =
    let first = read_all_pending handler r sts s in
    followed_by-IsKept handler r sts (followed_by first (λ now s'. reclaim_if_due handler r now s'))
      (λ now s'. read_new handler r now s')
      (followed_by-IsKept handler r sts first (λ now s'. reclaim_if_due handler r now s')
        (read_all_pending-IsKept handler r sts s)
        (λ now s'. reclaim_if_due-IsKept handler r now s'))
      (λ now s'. read_new-IsKept handler r now s')
