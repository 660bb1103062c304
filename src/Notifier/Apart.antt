-- ===== src/Notifier/Apart.antt =====
-- The dedup ids that internal/alerting/service.go gives its notifications, and how
-- internal/notify/service.go and internal/notify/webhookdeliver.go tell them apart.
use pulse_pager.Prelude.{
  ℕ, ℤ, ◌≡◌, ◌≢◌, refl, ap, sym, ◌∙◌, false, Option, some, List, [], ◌∷◌, ◌++◌, arith, any, All,
  format_int, format_int-IsDigit, IsDigit, ◌⊎◌, inl, inr, Bool-cases,
}
use pulse_pager.Domain.{Time, Monitor, Incident, CheckResult}
use pulse_pager.Alerting.Engine.{NotifyEventType}
use pulse_pager.Alerting.Service
use pulse_pager.Alerting.Service.{
  NotifyMessage, dedup_input, dedup_key, emit, kind_bytes, warn_suffix,
}
use pulse_pager.Alerting.DedupKey.{dedup_input-injective}
use pulse_pager.Notifier.OrgWebhooks.{Libraries}
use pulse_pager.Notifier.Service.{
  State, Env, dedup_key_input, dedup_id_of, handle, is_claim, bytes_eq, claim_notify_dedup,
  claim_first, dedup, set_if_absent, redis_key, is_held,
}
use pulse_pager.Notifier.Once.{is_claimed, bytes_eq→eq, after_dedup-claims, after_dedup-keys}

-- Digits before a byte that is none, here 0, and digits before a colon.
zero-ne-colon :
    (xs ys us vs : List ℕ) → All IsDigit xs → All IsDigit ys → xs ++ b':' ∷ us ≢ ys ++ 0 ∷ vs
zero-ne-colon [] [] us vs p q e = ground arith
zero-ne-colon [] (y ∷ ys) us vs p q e = ground arith
zero-ne-colon (x ∷ xs) [] us vs p q e = ground arith
zero-ne-colon (x ∷ xs) (y ∷ ys) us vs p q e = zero-ne-colon xs ys us vs p.1 q.1 (ground arith)

-- The text that alerting hashes for a dedup id is never the text that the notifier's own DedupKey
-- hashes, be it for the same incident and event type.
pub dedup_input-ne-dedup_key_input :
    (i k : ℕ) (kind kind' : NotifyEventType) (warn : Option ℤ)
    → dedup_input i kind warn ≢ dedup_key_input k kind'
unfolding dedup_input dedup_key_input
dedup_input-ne-dedup_key_input i k kind kind' warn =
    zero-ne-colon (format_int i) (format_int k) _ _ (format_int-IsDigit i) (format_int-IsDigit k)

List-cases {ℓ} : {A : Type ℓ} (xs : List A) → (xs ≡ []) ⊎ ((x : A) × (ys : List A) × (xs ≡ x ∷ ys))
List-cases [] = inl refl
List-cases (x ∷ xs) = inr (x, xs, refl)

-- What the id of an emitted notification is.
emit-key :
    (sha : List ℕ → List ℕ) (env : Service.Env) (m : Monitor) (inc : Incident) (v : CheckResult)
    (kind : NotifyEventType) (warn : Option ℤ) (msg : NotifyMessage)
    → emit sha env m inc v kind warn ≡ some msg
    → msg.dedup_key ≡ sha (dedup_input inc.id kind warn)
unfolding emit dedup_key
emit-key sha env m inc v kind warn msg e = ground (arith, e)

dedup_id_of-key :
    (lib : Libraries) (msg : NotifyMessage)
    → msg.dedup_key ≢ []
    → dedup_id_of lib msg ≡ msg.dedup_key
unfolding dedup_id_of
dedup_id_of-key lib msg h = elim (List-cases msg.dedup_key) [
  | inl nil ↦ absurd (h nil)
  | inr (c, cs, e) ↦ rw (e, dedup_id_of) refl
]

-- A claim of another id leaves the id unclaimed.
dedup-unclaimed :
    (env : Env) (org_id org_id' : ℕ) (id id' : List ℕ) (st : State)
    → bytes_eq id id' ≡ false
    → is_claimed org_id' id' st ≡ false
    → is_claimed org_id' id' (dedup env org_id id st).0 ≡ false
unfolding dedup claim_first claim_notify_dedup set_if_absent
dedup-unclaimed env org_id org_id' id id' st other free = ground arith

handle-unclaimed :
    (lib : Libraries) (env : Env) (msg : NotifyMessage) (org_id : ℕ) (id : List ℕ) (st : State)
    → bytes_eq (dedup_id_of lib msg) id ≡ false
    → is_claimed org_id id st ≡ false
    → is_claimed org_id id (handle lib env (some msg) st).state ≡ false
unfolding handle
handle-unclaimed lib env msg org_id id st other free =
    let (st', first) = dedup env msg.org_id (dedup_id_of lib msg) st in
    ap (any (is_claim org_id id)) (after_dedup-claims lib env msg st' first)
    ∙ dedup-unclaimed env msg.org_id org_id (dedup_id_of lib msg) id st other free

-- Two keys of Redis are as equal as the ids.
redis_key-eq : (id id' : List ℕ) → bytes_eq (redis_key id) (redis_key id') ≡ bytes_eq id id'
redis_key-eq id id' = refl

-- A key of another id is as held as before.
dedup-unheld :
    (env : Env) (org_id : ℕ) (id id' : List ℕ) (at : Time) (st : State)
    → bytes_eq id id' ≡ false
    → any (is_held (redis_key id') at) st.keys ≡ false
    → any (is_held (redis_key id') at) (dedup env org_id id st).0.keys ≡ false
unfolding dedup claim_first claim_notify_dedup set_if_absent
dedup-unheld env org_id id id' at st other free = ground (arith, redis_key-eq id id')

handle-unheld :
    (lib : Libraries) (env : Env) (msg : NotifyMessage) (id : List ℕ) (at : Time) (st : State)
    → bytes_eq (dedup_id_of lib msg) id ≡ false
    → any (is_held (redis_key id) at) st.keys ≡ false
    → any (is_held (redis_key id) at) (handle lib env (some msg) st).state.keys ≡ false
unfolding handle
handle-unheld lib env msg id at st other free =
    let (st', first) = dedup env msg.org_id (dedup_id_of lib msg) st in
    ap (any (is_held (redis_key id) at)) (after_dedup-keys lib env msg st' first)
    ∙ dedup-unheld env msg.org_id (dedup_id_of lib msg) id at st other free

-- Two notifications that alerting emits for different incidents, different kinds of event or
-- different expiry levels do not suppress each other: handling one leaves the dedup id of the other
-- unclaimed in its org, if it was, and its key in Redis free at any time at which it was, as long as
-- the hash does not take their two texts to the same value and is never empty.
pub emit-unsuppressed :
    (sha : List ℕ → List ℕ) (lib : Libraries) (sends sends' : Service.Env) (m m' : Monitor)
    (inc inc' : Incident) (v v' : CheckResult) (kind kind' : NotifyEventType)
    (warn warn' : Option ℤ) (msg msg' : NotifyMessage) (env : Env) (at : Time) (st : State)
    → emit sha sends m inc v kind warn ≡ some msg
    → emit sha sends' m' inc' v' kind' warn' ≡ some msg'
    → ((text : List ℕ) → sha text ≢ [])
    → (sha (dedup_input inc.id kind warn) ≡ sha (dedup_input inc'.id kind' warn')
        → dedup_input inc.id kind warn ≡ dedup_input inc'.id kind' warn')
    → ¬ ((inc.id ≡ inc'.id) × (kind ≡ kind') × (warn ≡ warn'))
    → is_claimed msg'.org_id (dedup_id_of lib msg') st ≡ false
    → any (is_held (redis_key (dedup_id_of lib msg')) at) st.keys ≡ false
    → let after = (handle lib env (some msg) st).state in
      (is_claimed msg'.org_id (dedup_id_of lib msg') after ≡ false)
      × (any (is_held (redis_key (dedup_id_of lib msg')) at) after.keys ≡ false)
emit-unsuppressed sha lib sends sends' m m' inc inc' v v' kind kind' warn warn' msg msg' env at st
      emitted emitted' full apart different free unheld =
    let key = emit-key sha sends m inc v kind warn msg emitted in
    let key' = emit-key sha sends' m' inc' v' kind' warn' msg' emitted' in
    let its = dedup_id_of-key lib msg (λ e. full _ (sym key ∙ e)) ∙ key in
    let its' = dedup_id_of-key lib msg' (λ e. full _ (sym key' ∙ e)) ∙ key' in
    elim (Bool-cases (bytes_eq (dedup_id_of lib msg) (dedup_id_of lib msg'))) [
      | inr other ↦ (
        handle-unclaimed lib env msg msg'.org_id _ st other free,
        handle-unheld lib env msg _ at st other unheld,
      )
      | inl same ↦ absurd (
          different (
            dedup_input-injective inc.id inc'.id kind kind' warn warn'
              (apart (sym its ∙ bytes_eq→eq _ _ same ∙ its'))))
    ]
