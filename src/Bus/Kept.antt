-- ===== src/Bus/Kept.antt =====
-- internal/bus/redis.go: the entries of one stream, over a round of calls of the handler.
pub mod Polls
use pulse_pager.Prelude.{
  ℕ, zero, suc, ◌≡◌, refl, ap, sym, ◌∙◌, String, str_eq, Bool, true, false, not, ◌&&◌, ◌||◌, Option,
  none, some, List, [], ◌∷◌, ◌++◌, arith, any, any-append, All, All-append, ◌==◌, keep_where,
  Bool-cases, inl, inr, ◌⊎◌, if◌then◌else◌, eq_refl,
}
use pulse_pager.Store.Db.{Link, Link-cases, works, lost, commit_unknown}
use pulse_pager.Bus.{
  Message, Record, Stream, Replies, Round, Polled, Entry, to_redis_record, without, dispatch,
  dispatch_all, read_pending, read_all_pending, reclaim_pages, reclaim_all, reclaim_if_due,
  dispatch_new, read_new, poll, untouched, and_then, then_round, followed_by, of_round, take, drop,
  take_new, take_all_new, redis_batch,
}

abbrev has_id : ℕ → Message → Bool
has_id i m = m.id == i

-- Is there a message of the topic with this id that nobody has acknowledged?
abbrev pub holds_in : String → ℕ → Stream → Bool
holds_in t i st = str_eq st.topic t && (any (has_id i) st.pending || any (has_id i) st.fresh)

abbrev pub holds : String → ℕ → List Stream → Bool
holds t i sts = any (holds_in t i) sts

-- The message of the topic with this id
abbrev pub is_entry : String → ℕ → Entry → Bool
is_entry t i e = str_eq e.0 t && e.1.id == i

any-without :
    (i : ℕ) (m : Message) (ms : List Message)
    → any (has_id i) ms ≡ true
    → (any (has_id i) (without m ms) || m.id == i) ≡ true
unfolding keep_where
any-without i m [] h = absurd (ground (arith, h))
any-without i m (x ∷ ms) h = ground (arith, h, any-without i m ms)

any-take-drop :
    (i n : ℕ) (ms : List Message)
    → any (has_id i) ms ≡ (any (has_id i) (take n ms) || any (has_id i) (drop n ms))
any-take-drop i zero ms = refl
any-take-drop i (suc n) [] = refl
any-take-drop i (suc n) (m ∷ ms) = ground (arith, any-take-drop i n ms)

new_bools :
    (eq p f t d n : Bool)
    → f ≡ (t || d)
    → n ≡ (if p then true else t)
    → (eq && (p || f)) ≡ true
    → (eq && (n || d)) ≡ true
new_bools eq p f t d n a b h = ground arith

pub take_new-holds :
    (t : String) (i : ℕ) (st : Stream) → holds_in t i st ≡ true → holds_in t i (take_new st) ≡ true
take_new-holds t i st h =
    new_bools (str_eq st.topic t) (any (has_id i) st.pending) (any (has_id i) st.fresh)
      (any (has_id i) (take redis_batch st.fresh)) (any (has_id i) (drop redis_batch st.fresh))
      (any (has_id i) (take_new st).pending) (any-take-drop i redis_batch st.fresh)
      (any-append (has_id i) st.pending (take redis_batch st.fresh)) h

pub or_mono :
    (a b c d : Bool)
    → (a ≡ true → c ≡ true)
    → (b ≡ true → d ≡ true)
    → (if a then true else b) ≡ true
    → (if c then true else d) ≡ true
or_mono a b c d h k e = ground arith

pub take_all_new-holds :
    (t : String) (i : ℕ) (sts : List Stream)
    → holds t i sts ≡ true
    → holds t i (take_all_new sts) ≡ true
take_all_new-holds t i [] h = h
take_all_new-holds t i (st ∷ sts) h =
    or_mono (holds_in t i st) (holds t i sts) (holds_in t i (take_new st))
      (holds t i (take_all_new sts)) (take_new-holds t i st) (take_all_new-holds t i sts) h

module _ {ℓ} {S : Type ℓ} (handler : Record → S → S × Bool) (r : Replies) where
  dispatch-keeps :
      (t : String) (m : Message) (pending : List Message) (s : S) (i : ℕ)
      → any (has_id i) pending ≡ true
      → let d = dispatch handler r t m pending s in
        (any (has_id i) d.left || any (is_entry t i) d.acked) ≡ true
  unfolding dispatch
  dispatch-keeps t m pending s i h = ground (arith, any-without i m pending h, eq_refl t)

  -- What was acknowledged, the handler succeeded on.
  abbrev pub WasHandled : Entry → Type ℓ
  WasHandled e = (s : S) × ((handler (to_redis_record e.0 e.1) s).1 ≡ true)

  -- A part of a poll acknowledges only what the handler succeeded on, and keeps all else.
  pub record IsKept (before : List Stream) (p : Polled S) : Type ℓ where
    pub keeps :
        (t : String) (i : ℕ)
        → holds t i before ≡ true
        → (holds t i p.streams || any (is_entry t i) p.acked) ≡ true
    pub handled : All WasHandled p.acked

  dispatch-handled :
      (t : String) (m : Message) (pending : List Message) (s : S)
      → All WasHandled (dispatch handler r t m pending s).acked
  unfolding dispatch
  dispatch-handled t m pending s = elim (Bool-cases (handler (to_redis_record t m) s).1) [
    | inr bad ↦ rw (bad, dispatch) tt
    | inl good ↦ elim (Link-cases (r.acks m.id)) [
      | inl e ↦ rw (good, e, dispatch) ((s, good), tt)
      | inr (inl e) ↦ rw (good, e, dispatch) tt
      | inr (inr e) ↦ rw (good, e, dispatch) ((s, good), tt)
    ]
  ]

  -- A part of a round that began with the pending entries `before`.
  pub record IsKeptRound (t : String) (before : List Message) (d : Round S) : Type ℓ where
    pub keeps :
        (i : ℕ)
        → any (has_id i) before ≡ true
        → (any (has_id i) d.left || any (is_entry t i) d.acked) ≡ true
    pub handled : All WasHandled d.acked

  then_round-IsKeptRound :
      (t : String) (before : List Message) (first rest : Round S)
      → IsKeptRound t before first
      → IsKeptRound t first.left rest
      → IsKeptRound t before (then_round first rest)
  unfolding then_round
  then_round-IsKeptRound t before first rest k l = by_case first.fine
    where
      both : Round S
      both = record {
        left = rest.left;
        state = rest.state;
        seen = first.seen ++ rest.seen;
        acked = first.acked ++ rest.acked;
        fine = rest.fine;
      }

      kept : IsKeptRound t before both
      kept = record {
        keeps = λ i h.
            ground
              (arith, k.keeps i h, l.keeps i, any-append (is_entry t i) first.acked rest.acked);
        handled = All-append WasHandled first.acked rest.acked k.handled l.handled;
      }

      by_case : (b : Bool) → IsKeptRound t before (if b then both else first)
      by_case true = kept
      by_case false = k

  dispatch-IsKeptRound :
      (t : String) (m : Message) (pending : List Message) (s : S)
      → IsKeptRound t pending (dispatch handler r t m pending s)
  dispatch-IsKeptRound t m pending s = record {
    keeps = λ i h. dispatch-keeps t m pending s i h;
    handled = dispatch-handled t m pending s;
  }

  pub dispatch_all-IsKeptRound :
      (t : String) (ms pending : List Message) (s : S)
      → IsKeptRound t pending (dispatch_all handler r t ms pending s)
  unfolding dispatch_all
  dispatch_all-IsKeptRound t [] pending s = record {
    keeps = λ i h. ground (arith, h);
    handled = tt;
  }
  dispatch_all-IsKeptRound t (m ∷ ms) pending s =
      let first = dispatch handler r t m pending s in
      then_round-IsKeptRound t pending first _ (dispatch-IsKeptRound t m pending s)
        (dispatch_all-IsKeptRound t ms first.left first.state)

  pub reclaim_pages-IsKeptRound :
      (st : Stream) (pages : List (Option (List Message))) (pending : List Message) (s : S)
      → IsKeptRound st.topic pending (reclaim_pages handler r st pages pending s)
  unfolding reclaim_pages
  reclaim_pages-IsKeptRound st [] pending s = record {
    keeps = λ i h. ground (arith, h);
    handled = tt;
  }
  reclaim_pages-IsKeptRound st (none ∷ pages) pending s = record {
    keeps = λ i h. ground (arith, h);
    handled = tt;
  }
  reclaim_pages-IsKeptRound st (some msgs ∷ pages) pending s =
      let first = dispatch_all handler r st.topic msgs (pending ++ msgs) s in
      let k = dispatch_all-IsKeptRound st.topic msgs (pending ++ msgs) s in
      let kept : IsKeptRound st.topic pending first = record {
        keeps = λ i h. k.keeps i (ground (arith, h, any-append (has_id i) pending msgs));
        handled = k.handled;
      } in
      then_round-IsKeptRound st.topic pending first _ kept
        (reclaim_pages-IsKeptRound st pages first.left first.state)
