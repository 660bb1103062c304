-- ===== src/Notifier/Once.antt =====
-- internal/notify/service.go: how often a notification is sent, however often the bus delivers it.
use pulse_pager.Prelude.{
  ℕ, ◌+◌, ◌≤◌, ◌≡◌, ◌⊎◌, refl, subst₂, ap, ◌∙◌, Bool, true, false, ◌&&◌, ◌||◌, some, List, [], ◌∷◌,
  arith, any, ◌==◌, ==_iff, &&_iff, Bool-cases, inl, inr, if◌then◌else◌,
}
use pulse_pager.Store.Db.{Result, ok, err, MonitorRow}
use pulse_pager.Alerting.Service.{NotifyMessage}
use pulse_pager.Notifier.Channels.{Channel, Delivery}
use pulse_pager.Notifier.OrgWebhooks.{OrgWebhook, Libraries}
use pulse_pager.Notifier.Service.{
  bytes_eq, CachedKey, Claim, State, Env, Handled, is_claim, claim_notify_dedup, claim_first, dedup,
  set_if_absent, after_dedup, dedup_id_of, notify, handle,
}

pub bytes_eq→eq : (xs ys : List ℕ) → bytes_eq xs ys ≡ true → xs ≡ ys
bytes_eq→eq [] [] h = refl
bytes_eq→eq [] (y ∷ ys) h = absurd (ground arith)
bytes_eq→eq (x ∷ xs) [] h = absurd (ground arith)
bytes_eq→eq (x ∷ xs) (y ∷ ys) h = ground (arith, bytes_eq→eq xs ys)

pub bytes_eq_refl : (xs : List ℕ) → bytes_eq xs xs ≡ true
bytes_eq_refl [] = refl
bytes_eq_refl (x ∷ xs) = ground (arith, bytes_eq_refl xs)

-- Has the id been claimed?
abbrev pub is_claimed : ℕ → List ℕ → State → Bool
is_claimed org_id dedup_id st = any (is_claim org_id dedup_id) st.claims

abbrev pub not_empty {ℓ} : {A : Type ℓ} → List A → Bool
not_empty [] = false
not_empty (x ∷ xs) = true

-- Has the call sent or posted anything?
abbrev pub is_noisy : Handled → Bool
is_noisy h = not_empty h.sent || not_empty h.posted

module _ (env : Env) (org_id : ℕ) (dedup_id : List ℕ) where
  -- The id is claimed by the first one, and a claim is for good.
  claim-first :
      (claims : List Claim)
      → (claim_notify_dedup env.claims org_id dedup_id claims).1 ≡ ok true
      → (any (is_claim org_id dedup_id) claims ≡ false)
        × (any (is_claim org_id dedup_id) (claim_notify_dedup env.claims org_id dedup_id claims).0
            ≡ true)
  unfolding claim_notify_dedup
  claim-first claims h = ground (arith, bytes_eq_refl dedup_id)

  claim-kept :
      (claims : List Claim) (org : ℕ) (id : List ℕ)
      → any (is_claim org id) claims ≡ true
      → any (is_claim org id) (claim_notify_dedup env.claims org_id dedup_id claims).0 ≡ true
  unfolding claim_notify_dedup
  claim-kept claims org id h = ground arith

  pub dedup-first :
      (st : State)
      → (dedup env org_id dedup_id st).1 ≡ ok true
      → (is_claimed org_id dedup_id st ≡ false)
        × (is_claimed org_id dedup_id (dedup env org_id dedup_id st).0 ≡ true)
  unfolding dedup claim_first set_if_absent
  dedup-first st h = ground (arith, claim-first st.claims)

  dedup-kept :
      (st : State) (org : ℕ) (id : List ℕ)
      → is_claimed org id st ≡ true
      → is_claimed org id (dedup env org_id dedup_id st).0 ≡ true
  unfolding dedup claim_first set_if_absent
  dedup-kept st org id h = ground (arith, claim-kept st.claims org id)

-- What can happen to the notifier: a call of handle, or a change of anything but the claims, such
-- as a key that expires.
pub data Step : Type 0 where
  delivery : Env → NotifyMessage → Step
  change : List CachedKey → List MonitorRow → List Channel → List OrgWebhook → List Delivery → Step

module _ (lib : Libraries) where
  pub after_dedup-claims :
      (env : Env) (ev : NotifyMessage) (st : State) (first : Result Bool)
      → (after_dedup lib env ev st first).state.claims ≡ st.claims
  unfolding after_dedup notify
  after_dedup-claims env ev st (err e) = refl
  after_dedup-claims env ev st (ok false) = refl
  after_dedup-claims env ev st (ok true) = ground arith

  pub after_dedup-keys :
      (env : Env) (ev : NotifyMessage) (st : State) (first : Result Bool)
      → (after_dedup lib env ev st first).state.keys ≡ st.keys
  unfolding after_dedup notify
  after_dedup-keys env ev st (err e) = refl
  after_dedup-keys env ev st (ok false) = refl
  after_dedup-keys env ev st (ok true) = ground arith

  after_dedup-silent :
      (env : Env) (ev : NotifyMessage) (st : State) (first : Result Bool)
      → (first ≡ ok true) ⊎ (is_noisy (after_dedup lib env ev st first) ≡ false)
  unfolding after_dedup
  after_dedup-silent env ev st (err e) = inr refl
  after_dedup-silent env ev st (ok false) = inr refl
  after_dedup-silent env ev st (ok true) = inl refl

  pub handle-claimed :
      (env : Env) (ev : NotifyMessage) (st : State) (org : ℕ) (id : List ℕ)
      → is_claimed org id st ≡ true
      → is_claimed org id (handle lib env (some ev) st).state ≡ true
  unfolding handle
  handle-claimed env ev st org id h =
      let (st', first) = dedup env ev.org_id (dedup_id_of lib ev) st in
      ap (any (is_claim org id)) (after_dedup-claims env ev st' first)
      ∙ dedup-kept env ev.org_id (dedup_id_of lib ev) st org id h

  -- A call that is heard finds its id unclaimed, and leaves it claimed.
  pub handle-noisy :
      (env : Env) (ev : NotifyMessage) (st : State)
      → is_noisy (handle lib env (some ev) st) ≡ true
      → (is_claimed ev.org_id (dedup_id_of lib ev) st ≡ false)
        × (is_claimed ev.org_id (dedup_id_of lib ev) (handle lib env (some ev) st).state ≡ true)
  unfolding handle
  handle-noisy env ev st h =
      let id = dedup_id_of lib ev in
      let (st', first) = dedup env ev.org_id id st in
      elim (after_dedup-silent env ev st' first) [
        | inr quiet ↦ absurd (ground (arith, quiet, h))
        | inl won ↦
            let (before, after) = dedup-first env ev.org_id id st won in
            (before, ap (any (is_claim ev.org_id id)) (after_dedup-claims env ev st' first) ∙ after)
      ]

  unfoldable pub step : Step → State → State
  unfolding handle
  step (delivery env ev) st = (handle lib env (some ev) st).state
  step (change keys monitors channels webhooks deliveries) st = record {
    keys = keys;
    claims = st.claims;
    monitors = monitors;
    channels = channels;
    webhooks = webhooks;
    deliveries = deliveries;
  }

  abbrev pub is_about : ℕ → List ℕ → NotifyMessage → Bool
  is_about org id ev = ev.org_id == org && bytes_eq (dedup_id_of lib ev) id

  -- Is the step a call with this id that is heard?
  unfoldable pub is_heard : ℕ → List ℕ → Step → State → Bool
  unfolding handle
  is_heard org id (delivery env ev) st =
      is_about org id ev && is_noisy (handle lib env (some ev) st)
  is_heard org id (change _ _ _ _ _) st = false

  -- How many of the steps are?
  unfoldable pub times_heard : ℕ → List ℕ → List Step → State → ℕ
  unfolding step is_heard
  times_heard org id [] st = 0
  times_heard org id (s ∷ ss) st =
      (if is_heard org id s st then 1 else 0) + times_heard org id ss (step s st)

  step-claimed :
      (s : Step) (st : State) (org : ℕ) (id : List ℕ)
      → is_claimed org id st ≡ true
      → is_claimed org id (step s st) ≡ true
  unfolding step
  step-claimed (delivery env ev) st org id h = handle-claimed env ev st org id h
  step-claimed (change _ _ _ _ _) st org id h = h

  is_heard-claims :
      (s : Step) (st : State) (org : ℕ) (id : List ℕ)
      → is_heard org id s st ≡ true
      → (is_claimed org id st ≡ false) × (is_claimed org id (step s st) ≡ true)
  unfolding is_heard step
  is_heard-claims (change _ _ _ _ _) st org id h = absurd (ground (arith, h))
  is_heard-claims (delivery env ev) st org id h =
      let (about, loud) = (&&_iff (is_about org id ev) _).0 h in
      let (same_org, same_id) = (&&_iff (ev.org_id == org) _).0 about in
      subst₂
        (λ o i.
          (is_claimed o i st ≡ false) × (is_claimed o i (handle lib env (some ev) st).state ≡ true))
        ((==_iff ev.org_id org).0 same_org) (bytes_eq→eq (dedup_id_of lib ev) id same_id)
        (handle-noisy env ev st loud)

  pub times_heard_claimed :
      (org : ℕ) (id : List ℕ) (ss : List Step) (st : State)
      → is_claimed org id st ≡ true
      → times_heard org id ss st ≡ 0
  unfolding times_heard
  times_heard_claimed org id [] st h = refl
  times_heard_claimed org id (s ∷ ss) st h =
      let later = times_heard_claimed org id ss (step s st) (step-claimed s st org id h) in
      elim (Bool-cases (is_heard org id s st)) [
        | inl loud ↦ absurd (ground (arith, h, (is_heard-claims s st org id loud).0))
        | inr quiet ↦ rw (quiet, later) refl
      ]

-- Whatever the bus delivers, in whatever order and however often, and whatever Redis, the database
-- and the network do in between: a dedup id of an org is acted on in one call at most.
pub times_heard_once :
    (lib : Libraries) (org : ℕ) (id : List ℕ) (ss : List Step) (st : State)
    → times_heard lib org id ss st ≤ 1
unfolding times_heard
times_heard_once lib org id [] st = omega arith
times_heard_once lib org id (s ∷ ss) st = elim (Bool-cases (is_heard lib org id s st)) [
  | inl loud ↦
      let claimed = (is_heard-claims lib s st org id loud).1 in
      rw (loud, times_heard_claimed lib org id ss (step lib s st) claimed) (omega arith)
  | inr quiet ↦ rw quiet (omega (arith, times_heard_once lib org id ss (step lib s st)))
]
