-- ===== src/Notifier/Posts.antt =====
-- internal/notify/webhookdeliver.go: which webhooks a notification is posted to, and what their
-- rows then say.
use pulse_pager.Prelude.{
  ℕ, zero, suc, ◌+◌, ◌≤◌, ◌≡◌, refl, subst, sym, String, Bool, true, false, not, ◌&&◌, Option, none,
  is_some, List, [], ◌∷◌, ◌++◌, arith, any, ◌==◌, ltb, All, All-append, All-mono, Bool-cases,
  Option-cases, inl, inr, if◌then◌else◌,
}
use pulse_pager.Alerting.Service.{NotifyMessage}
use pulse_pager.Notifier.OrgWebhooks.{
  OrgWebhook, OrgWebhookEvent, Post, Web, Libraries, same_event, subscribes, org_event_types,
  org_event_id, build_org_envelope, is_past_budget, post_signed, post_loop, deliver_one,
  deliver_types, deliver_org_webhooks,
}

-- A POST of the event type to the webhook: within the limit and the budget, and with the id of the
-- incident's event.
pub record IsPost (lib : Libraries) (web : Web) (ev : NotifyMessage) (id : ℕ) (et : OrgWebhookEvent)
    (p : Post) : Type 0 where
  pub to_hook : p.hook_id ≡ id
  pub of_type : p.event ≡ et
  pub from_first : 1 ≤ p.attempt
  pub to_last : p.attempt ≤ web.max_attempts
  pub in_budget : is_past_budget web ev (web.clock id et p.attempt) ≡ false
  pub with_id : p.event_id ≡ org_event_id lib ev.incident_id et

-- The webhook is enabled and subscribes to the type, and the notification is of it.
abbrev pub is_target : NotifyMessage → Post → OrgWebhook → Bool
is_target ev p h =
    h.id == p.hook_id
    && h.enabled
    && subscribes h.events p.event
    && any (λ et. same_event et p.event) (org_event_types ev.event_type)

-- Was the POST taken?
abbrev pub is_taken : Web → ℕ → OrgWebhookEvent → Post → Bool
is_taken web id et p = not (is_some (web.posts id et p.attempt))

All-if {ℓ κ} :
    {A : Type ℓ} (P : A → Type κ) (b : Bool) (xs ys : List A)
    → (b ≡ true → All P xs)
    → All P ys
    → All P ((if b then xs else []) ++ ys)
All-if P true xs ys h k = All-append P xs ys (h refl) k
All-if P false xs ys h k = k

module _ (lib : Libraries) (web : Web) (ev : NotifyMessage) where
  post_loop-IsPost :
      (hook : OrgWebhook) (et : OrgWebhookEvent) (raw : List ℕ) (more attempt : ℕ)
      (last_err : Option String)
      → 1 ≤ attempt
      → attempt + more ≤ web.max_attempts + 1
      → All
          (IsPost lib web ev hook.id et)
          (post_loop lib web ev hook et raw more attempt last_err).0
  unfolding post_loop post_signed
  post_loop-IsPost hook et raw zero attempt last_err a b = tt
  post_loop-IsPost hook et raw (suc more) attempt last_err a b =
      let sent =
        post_signed lib hook et attempt (web.signs_at hook.id et attempt) raw
          (org_event_id lib ev.incident_id et) in
      let rest =
        post_loop-IsPost hook et raw more (attempt + 1) (web.posts hook.id et attempt)
          (omega (arith, a)) (omega (arith, b)) in
      elim (Bool-cases (web.cancelled hook.id et attempt)) [
        | inl gone ↦ rw gone tt
        | inr on ↦ elim (Bool-cases (is_past_budget web ev (web.clock hook.id et attempt))) [
          | inl late ↦ rw (on, late) tt
          | inr timely ↦
              let it : IsPost lib web ev hook.id et sent = record {
                to_hook = refl;
                of_type = refl;
                from_first = a;
                to_last = omega (arith, b);
                in_budget = timely;
                with_id = refl;
              } in
              elim (Bool-cases (is_some (web.posts hook.id et attempt))) [
                | inr taken ↦ rw (on, timely, taken) (it, tt)
                | inl refused ↦
                    elim (Bool-cases (
                      ltb attempt web.max_attempts
                      && web.has_backoff
                      && not (web.sleeps hook.id et attempt))) [
                        | inl woken ↦ rw (on, timely, refused, woken) (it, tt)
                        | inr again ↦ rw (on, timely, refused, again) (it, rest)
                      ]
              ]
        ]
      ]

  pub post_loop-taken :
      (hook : OrgWebhook) (et : OrgWebhookEvent) (raw : List ℕ) (more attempt : ℕ)
      (last_err : Option String)
      → (more ≡ 0 → is_some last_err ≡ true)
      → any (is_taken web hook.id et) (post_loop lib web ev hook et raw more attempt last_err).0
        ≡ not (is_some (post_loop lib web ev hook et raw more attempt last_err).1)
  unfolding post_loop post_signed
  post_loop-taken hook et raw zero attempt last_err a = ground (arith, a)
  post_loop-taken hook et raw (suc more) attempt last_err a =
      elim (Bool-cases (web.cancelled hook.id et attempt)) [
        | inl gone ↦ rw gone refl
        | inr on ↦ elim (Bool-cases (is_past_budget web ev (web.clock hook.id et attempt))) [
          | inl late ↦ rw (on, late) refl
          | inr timely ↦ elim (Bool-cases (is_some (web.posts hook.id et attempt))) [
            | inr taken ↦ rw (on, timely, taken) (ground (arith, taken))
            | inl refused ↦
                let rest =
                  post_loop-taken hook et raw more (attempt + 1) (web.posts hook.id et attempt)
                    (λ e. refused) in
                elim (Bool-cases (
                  ltb attempt web.max_attempts
                  && web.has_backoff
                  && not (web.sleeps hook.id et attempt))) [
                    | inl woken ↦ rw (on, timely, refused, woken) (ground (arith, refused))
                    | inr again ↦ rw (on, timely, refused, again) (ground (arith, refused, rest))
                  ]
          ]
        ]
      ]

  pub deliver_one-IsPost :
      (hook : OrgWebhook) (et : OrgWebhookEvent) (rows : List OrgWebhook)
      → All (IsPost lib web ev hook.id et) (deliver_one lib web ev hook et rows).0
  unfolding deliver_one
  deliver_one-IsPost hook et rows =
      elim (Option-cases (lib.marshal (build_org_envelope lib ev et web.now))) [
        | inl bad ↦ rw (bad, deliver_one) tt
        | inr (raw, fine) ↦
            rw (fine, deliver_one)
              (post_loop-IsPost hook et raw web.max_attempts 1 none (omega arith) (omega arith))
      ]

  -- A POST of one of the types, to a webhook that subscribes to it.
  record IsWanted (hook : OrgWebhook) (ets : List OrgWebhookEvent) (p : Post) : Type 0 where
    subscribed : subscribes hook.events p.event ≡ true
    among : any (λ et. same_event et p.event) ets ≡ true
    post : IsPost lib web ev hook.id p.event p

  deliver_types-IsWanted :
      (hook : OrgWebhook) (ets : List OrgWebhookEvent) (rows : List OrgWebhook)
      → All (IsWanted hook ets) (deliver_types lib web ev hook ets rows).0
  unfolding deliver_types
  deliver_types-IsWanted hook [] rows = tt
  deliver_types-IsWanted hook (et ∷ ets) rows =
      All-if _ (subscribes hook.events et) _ _
        (λ wanted. All-mono _ _ (λ p i. first p wanted i) _ (deliver_one-IsPost hook et rows))
        (All-mono _ _ later _ (deliver_types-IsWanted hook ets _))
    where
      itself : (x : OrgWebhookEvent) → same_event x x ≡ true
      itself OrgWebhookEvent.monitor_down = refl
      itself OrgWebhookEvent.monitor_recovery = refl
      itself OrgWebhookEvent.incident_opened = refl
      itself OrgWebhookEvent.incident_closed = refl

      first :
          (p : Post)
          → subscribes hook.events et ≡ true
          → IsPost lib web ev hook.id et p
          → IsWanted hook (et ∷ ets) p
      first p wanted i = record {
        subscribed = rw i.of_type wanted;
        among = rw i.of_type (rw (itself et) refl);
        post = subst (λ x. IsPost lib web ev hook.id x p) (sym i.of_type) i;
      }

      later : (p : Post) → IsWanted hook ets p → IsWanted hook (et ∷ ets) p
      later p w = record {
        subscribed = w.subscribed;
        among = ground (arith, w.among);
        post = w.post;
      }

  -- What is true of a POST that deliverOrgWebhooks makes.
  pub record IsSent (hooks : List OrgWebhook) (p : Post) : Type 0 where
    pub targeted : any (is_target ev p) hooks ≡ true
    pub first : 1 ≤ p.attempt
    pub last : p.attempt ≤ web.max_attempts
    pub within : is_past_budget web ev (web.clock p.hook_id p.event p.attempt) ≡ false
    pub named : p.event_id ≡ org_event_id lib ev.incident_id p.event

  pub deliver_org_webhooks-each :
      (hooks rows : List OrgWebhook)
      → All (IsSent hooks) (deliver_org_webhooks lib web ev hooks rows).0
  unfolding deliver_org_webhooks
  deliver_org_webhooks-each [] rows = tt
  deliver_org_webhooks-each (hook ∷ hooks) rows =
      All-if _ hook.enabled _ _
        (λ on.
          All-mono _ _ (λ p w. here p on w) _
            (deliver_types-IsWanted hook (org_event_types ev.event_type) rows))
        (All-mono _ _ there _ (deliver_org_webhooks-each hooks _))
    where
      here :
          (p : Post)
          → hook.enabled ≡ true
          → IsWanted hook (org_event_types ev.event_type) p
          → IsSent (hook ∷ hooks) p
      here p on w = record {
        targeted = ground (arith, on, w.subscribed, w.among, w.post.to_hook);
        first = w.post.from_first;
        last = w.post.to_last;
        within =
            subst (λ id. is_past_budget web ev (web.clock id p.event p.attempt) ≡ false)
              (sym w.post.to_hook) w.post.in_budget;
        named = w.post.with_id;
      }

      there : (p : Post) → IsSent hooks p → IsSent (hook ∷ hooks) p
      there p s = record {
        targeted = ground (arith, s.targeted);
        first = s.first;
        last = s.last;
        within = s.within;
        named = s.named;
      }
