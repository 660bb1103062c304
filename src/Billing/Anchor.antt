-- ===== src/Billing/Anchor.antt =====
-- internal/store/subscriptions.go: ended_at, from which the trial window counts.
use pulse_pager.Prelude.{
  ℕ, ◌≡◌, refl, ap, ◌∙◌, String, Bool, true, false, not, ◌&&◌, none, some, List, [], ◌∷◌, ◌++◌,
  arith, ◌==◌, ==_iff, any, any-update_where, update_where, All, All-update_at, All-append,
  any-append, Bool-cases, inl, inr, if◌then◌else◌,
}
use pulse_pager.Domain.{Time}
use pulse_pager.Store.Db.{Link, works, lost, commit_unknown}
use pulse_pager.Entitlements.{Plan}
use pulse_pager.Billing.{
  Tables, Subscription, Called, Failure, transact, is_active, is_live_org, set_plan, of_org,
  inserted, updated, upsert_subscription, apply_subscription_event, write_row,
  update_subscription_plan, set_subscription_cancel_at_period_end, cancel_subscription_now,
  canceled_row,
}

-- What writes to subscriptions: an event, and the three changes by an operator.
pub data Write : Type 0 where
  event : Link → Time → Subscription → Write
  new_plan : Link → Time → ℕ → Plan → String → String → Write
  cancel_at_period_end : Link → Time → ℕ → Write
  cancel_now : Link → Time → ℕ → Write

unfoldable pub write : Write → Tables → Tables
unfolding apply_subscription_event update_subscription_plan set_subscription_cancel_at_period_end
    cancel_subscription_now
write (event link now s) t = (apply_subscription_event link now s t).0
write (new_plan link now org_id plan cycle price) t =
    (update_subscription_plan link now org_id plan cycle price t).0
write (cancel_at_period_end link now org_id) t =
    (set_subscription_cancel_at_period_end link now org_id t).0
write (cancel_now link now org_id) t = (cancel_subscription_now link now org_id t).0

unfoldable pub write_all : List Write → Tables → Tables
unfolding write
write_all [] t = t
write_all (w ∷ ws) t = write_all ws (write w t)

-- The org has a subscription, which has ended at `at`.
pub record HasEnded (org_id : ℕ) (at : Time) (rows : List Subscription) : Type 0 where
  pub has_row : any (of_org org_id) rows ≡ true
  pub ended :
      All (λ s. of_org org_id s ≡ true → (is_active s.status ≡ false) × (s.ended_at ≡ some at)) rows

-- Does the write bring the org's subscription to active or trialing?
abbrev pub reactivates : ℕ → Write → Bool
reactivates org_id (event link now s) = of_org org_id s && is_active s.status
reactivates org_id _ = false

-- What HasEnded says of a row.
abbrev EndedRow : ℕ → Time → Subscription → Type 0
EndedRow org_id at s =
    of_org org_id s ≡ true → (is_active s.status ≡ false) × (s.ended_at ≡ some at)

module _ (org_id : ℕ) (at : Time) where
  update_where-HasEnded :
      (p : Subscription → Bool) (f : Subscription → Subscription) (rows : List Subscription)
      → ((s : Subscription) → of_org org_id (f s) ≡ of_org org_id s)
      → ((s : Subscription) → p s ≡ true → EndedRow org_id at s → EndedRow org_id at (f s))
      → HasEnded org_id at rows
      → HasEnded org_id at (update_where p f rows)
  update_where-HasEnded p f rows same keeps h = record {
    has_row = any-update_where (of_org org_id) p f same rows ∙ h.has_row;
    ended = All-update_at (EndedRow org_id at) p f keeps rows h.ended;
  }

  updated-EndedRow :
      (now : Time) (s x : Subscription)
      → (of_org org_id s && is_active s.status) ≡ false
      → of_org s.org_id x ≡ true
      → EndedRow org_id at x
      → EndedRow org_id at (updated now s x)
  updated-EndedRow now s x quiet its h own =
      let (inactive, anchored) = h own in
      (ground (arith, quiet, its, own), ground (arith, quiet, its, own, inactive, anchored))

  canceled_row-EndedRow :
      (now : Time) (x : Subscription)
      → EndedRow org_id at x
      → EndedRow org_id at (canceled_row now x)
  canceled_row-EndedRow now x h own =
      let (inactive, anchored) = h own in (refl, ground (arith, inactive, anchored))

  upsert_subscription-HasEnded :
      (now : Time) (s : Subscription) (rows : List Subscription)
      → (of_org org_id s && is_active s.status) ≡ false
      → HasEnded org_id at rows
      → HasEnded org_id at (upsert_subscription now s rows)
  unfolding upsert_subscription
  upsert_subscription-HasEnded now s rows quiet h = by_case (any (of_org s.org_id) rows) refl
    where
      replaced : List Subscription
      replaced = update_where (of_org s.org_id) (updated now s) rows

      other : any (of_org s.org_id) rows ≡ false → of_org org_id s ≡ false
      other none_of = elim (Bool-cases (of_org org_id s)) [
        | inr e ↦ e
        | inl same ↦
            let there =
              ap (λ i. any (of_org i) rows) ((==_iff s.org_id org_id).0 same) ∙ h.has_row in
            absurd (ground (arith, there, none_of))
      ]

      by_case :
          (b : Bool)
          → any (of_org s.org_id) rows ≡ b
          → HasEnded org_id at (if b then replaced else rows ++ inserted now s ∷ [])
      by_case true e =
          update_where-HasEnded (of_org s.org_id) (updated now s) rows (λ x. refl)
            (λ x its own. updated-EndedRow now s x quiet its own) h
      by_case false e = record {
        has_row = any-append (of_org org_id) rows (inserted now s ∷ []) ∙ ground (arith, h.has_row);
        ended =
            All-append (EndedRow org_id at) rows (inserted now s ∷ []) h.ended
              ((λ own. absurd (ground (arith, other e, own))), tt);
      }

  transact-HasEnded :
      (link : Link) (t : Tables) (called : Called)
      → HasEnded org_id at t.subscriptions
      → HasEnded org_id at called.0.subscriptions
      → HasEnded org_id at (transact link t called).0.subscriptions
  unfolding transact
  transact-HasEnded works t (t', none) h k = k
  transact-HasEnded works t (t', some e) h k = h
  transact-HasEnded lost t (t', none) h k = h
  transact-HasEnded lost t (t', some e) h k = h
  transact-HasEnded commit_unknown t (t', none) h k = k
  transact-HasEnded commit_unknown t (t', some e) h k = h

  write_row-HasEnded :
      (org : ℕ) (f : Subscription → Subscription) (t : Tables)
      → ((s : Subscription) → of_org org_id (f s) ≡ of_org org_id s)
      → ((s : Subscription) → EndedRow org_id at s → EndedRow org_id at (f s))
      → HasEnded org_id at t.subscriptions
      → HasEnded org_id at (write_row org f t).0.subscriptions
  write_row-HasEnded org f t same keeps h = by_case (any (of_org org) t.subscriptions)
    where
      written : Called
      written = (record t { subscriptions = update_where (of_org org) f t.subscriptions }, none)

      refused : Called
      refused = (t, some Failure.no_rows)

      by_case : (b : Bool) → HasEnded org_id at (if b then written else refused).0.subscriptions
      by_case true = update_where-HasEnded (of_org org) f t.subscriptions same (λ s e. keeps s) h
      by_case false = h

  write-HasEnded :
      (w : Write) (t : Tables)
      → reactivates org_id w ≡ false
      → HasEnded org_id at t.subscriptions
      → HasEnded org_id at (write w t).subscriptions
  unfolding write apply_subscription_event update_subscription_plan
      set_subscription_cancel_at_period_end cancel_subscription_now
  write-HasEnded (event link now s) t quiet h =
      transact-HasEnded link t _ h
        (by_case (not (any (λ o. o.id == s.org_id) t.orgs)) (any (is_live_org s.org_id) t.orgs))
    where
      written : Called
      written = (
        record t {
          subscriptions = upsert_subscription now s t.subscriptions;
          orgs = update_where (is_live_org s.org_id) (set_plan s.plan) t.orgs;
        },
        none,
      )

      refused : Failure → Called
      refused e = (t, some e)

      by_case :
          (b c : Bool)
          → HasEnded org_id at
              (if b
                then refused Failure.foreign_key
                else if c
                then written
                else refused Failure.org_not_found).0.subscriptions
      by_case true c = h
      by_case false true = upsert_subscription-HasEnded now s t.subscriptions quiet h
      by_case false false = h
  write-HasEnded (new_plan link now org plan cycle price) t quiet h =
      transact-HasEnded link t _ h (write_row-HasEnded org _ t (λ s. refl) (λ s own. own) h)
  write-HasEnded (cancel_at_period_end link now org) t quiet h =
      transact-HasEnded link t _ h (write_row-HasEnded org _ t (λ s. refl) (λ s own. own) h)
  write-HasEnded (cancel_now link now org) t quiet h =
      transact-HasEnded link t _ h
        (write_row-HasEnded org (canceled_row now) t (λ s. refl) (canceled_row-EndedRow now) h)

-- Once an org's subscription has ended, the time of its end stays what it is through any writes,
-- late or repeated events and changes by an operator among them, as long as none of them brings the
-- subscription back to active or trialing.
pub write_all-HasEnded :
    (org_id : ℕ) (at : Time) (ws : List Write) (t : Tables)
    → All (λ w. reactivates org_id w ≡ false) ws
    → HasEnded org_id at t.subscriptions
    → HasEnded org_id at (write_all ws t).subscriptions
unfolding write_all
write_all-HasEnded org_id at [] t q h = h
write_all-HasEnded org_id at (w ∷ ws) t q h =
    write_all-HasEnded org_id at ws (write w t) q.1 (write-HasEnded org_id at w t q.0 h)
