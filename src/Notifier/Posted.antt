-- ===== src/Notifier/Posted.antt =====
-- internal/notify: which webhooks the first delivery of a notification is posted to.
use pulse_pager.Prelude.{
  ℕ, zero, suc, ◌≤◌, ◌≡◌, refl, sym, ap, subst, ◌∙◌, Bool, true, false, none, some, List, [], ◌∷◌,
  ◌++◌, any, any-append, arith, Bool-cases, inl, inr, if◌then◌else◌,
}
use pulse_pager.Store.Db.{ok, works}
use pulse_pager.Alerting.Service.{NotifyMessage}
use pulse_pager.Notifier.Channels.{Channel}
use pulse_pager.Notifier.OrgWebhooks.{
  OrgWebhook, OrgWebhookEvent, Post, Web, Libraries, same_event, subscribes, org_event_types,
  build_org_envelope, is_past_budget, list_enabled_webhooks, post_loop, post_signed, deliver_one,
  deliver_types, deliver_org_webhooks,
}
use pulse_pager.Notifier.PostCounts.{is_post}
use pulse_pager.Notifier.Service.{
  State, Env, is_held, redis_key, dedup_id_of, get_channels_for_monitor, deliver_webhooks, handle,
}
use pulse_pager.Notifier.Once.{is_claimed}
use pulse_pager.Notifier.First.{handle_first}

same_event_refl : (et : OrgWebhookEvent) → same_event et et ≡ true
same_event_refl OrgWebhookEvent.monitor_down = refl
same_event_refl OrgWebhookEvent.monitor_recovery = refl
same_event_refl OrgWebhookEvent.incident_opened = refl
same_event_refl OrgWebhookEvent.incident_closed = refl

same_event→eq : (x y : OrgWebhookEvent) → same_event x y ≡ true → x ≡ y
same_event→eq OrgWebhookEvent.monitor_down OrgWebhookEvent.monitor_down h = refl
same_event→eq OrgWebhookEvent.monitor_recovery OrgWebhookEvent.monitor_recovery h = refl
same_event→eq OrgWebhookEvent.incident_opened OrgWebhookEvent.incident_opened h = refl
same_event→eq OrgWebhookEvent.incident_closed OrgWebhookEvent.incident_closed h = refl
same_event→eq _ _ h = absurd (ground arith)

-- Nothing stands in the way of the first POST of the type to the webhook.
pub record IsOpen (lib : Libraries) (web : Web) (ev : NotifyMessage) (hook : OrgWebhook)
    (et : OrgWebhookEvent) : Type 0 where
  pub raw : List ℕ
  pub marshalled : lib.marshal (build_org_envelope lib ev et web.now) ≡ some raw
  pub some_attempt : 1 ≤ web.max_attempts
  pub uncancelled : web.cancelled hook.id et 1 ≡ false
  pub timely : is_past_budget web ev (web.clock hook.id et 1) ≡ false

module _ (lib : Libraries) (web : Web) (ev : NotifyMessage) (hook : OrgWebhook)
    (et : OrgWebhookEvent) (o : IsOpen lib web ev hook et) where
  post_loop-first :
      (raw : List ℕ) (most : ℕ)
      → 1 ≤ most
      → any (is_post hook.id et) (post_loop lib web ev hook et raw most 1 none).0 ≡ true
  unfolding post_loop post_signed
  post_loop-first raw zero h = absurd (omega arith)
  post_loop-first raw (suc n) h = ground (arith, o.uncancelled, o.timely, same_event_refl et)

  deliver_one-first :
      (rows : List OrgWebhook)
      → any (is_post hook.id et) (deliver_one lib web ev hook et rows).0 ≡ true
  unfolding deliver_one
  deliver_one-first rows =
      rw (o.marshalled, deliver_one) (post_loop-first o.raw web.max_attempts o.some_attempt)

  any-if :
      (b : Bool) (posts later : List Post)
      → b ≡ true
      → any (is_post hook.id et) posts ≡ true
      → any (is_post hook.id et) ((if b then posts else []) ++ later) ≡ true
  any-if true posts later e h = any-append (is_post hook.id et) posts later ∙ ground (arith, h)
  any-if false posts later e h = absurd (ground (arith, e))

  any-later :
      (first later : List Post)
      → any (is_post hook.id et) later ≡ true
      → any (is_post hook.id et) (first ++ later) ≡ true
  any-later first later h = any-append (is_post hook.id et) first later ∙ ground (arith, h)

  deliver_types-first :
      (ets : List OrgWebhookEvent) (rows : List OrgWebhook)
      → subscribes hook.events et ≡ true
      → any (λ x. same_event x et) ets ≡ true
      → any (is_post hook.id et) (deliver_types lib web ev hook ets rows).0 ≡ true
  unfolding deliver_types
  deliver_types-first [] rows wanted listed = absurd (ground (arith, listed))
  deliver_types-first (x ∷ xs) rows wanted listed = elim (Bool-cases (same_event x et)) [
    | inl same ↦
        let its = same_event→eq x et same in
        any-if (subscribes hook.events x) (deliver_one lib web ev hook x rows).0 _
          (ap (subscribes hook.events) its ∙ wanted)
          (subst (λ y. any (is_post hook.id et) (deliver_one lib web ev hook y rows).0 ≡ true)
            (sym its) (deliver_one-first rows))
    | inr other ↦ any-later _ _ (deliver_types-first xs _ wanted (rw other at listed))
  ]

  deliver_org_webhooks-first :
      (before after rows : List OrgWebhook)
      → hook.enabled ≡ true
      → subscribes hook.events et ≡ true
      → any (λ x. same_event x et) (org_event_types ev.event_type) ≡ true
      → any (is_post hook.id et) (deliver_org_webhooks lib web ev (before ++ hook ∷ after) rows).0
        ≡ true
  unfolding deliver_org_webhooks
  deliver_org_webhooks-first [] after rows on wanted listed =
      any-if hook.enabled (deliver_types lib web ev hook (org_event_types ev.event_type) rows).0 _
        on (deliver_types-first (org_event_types ev.event_type) rows wanted listed)
  deliver_org_webhooks-first (x ∷ before) after rows on wanted listed =
      any-later _ _ (deliver_org_webhooks-first before after _ on wanted listed)

deliver_webhooks-first :
    (lib : Libraries) (env : Env) (ev : NotifyMessage) (st : State) (before after : List OrgWebhook)
    (hook : OrgWebhook) (et : OrgWebhookEvent)
    → env.has_webhooks ≡ true
    → env.loads_webhooks ≡ works
    → list_enabled_webhooks ev.org_id st.webhooks ≡ before ++ hook ∷ after
    → any
        (is_post hook.id et)
        (deliver_org_webhooks lib env.web ev (before ++ hook ∷ after) st.webhooks).0
      ≡ true
    → any (is_post hook.id et) (deliver_webhooks lib env ev st).0 ≡ true
unfolding deliver_webhooks
deliver_webhooks-first lib env ev st before after hook et wired loads listed posted =
    rw (wired, deliver_webhooks) (rw loads (rw listed posted))

-- The first delivery of a notification, whose key Redis does not hold and whose dedup id is not
-- claimed, posts to the webhooks, if the claim and the loads of the channels and of the webhooks
-- succeed: each one that is loaded and enabled gets, for each event type of the notification that it
-- subscribes to, at least one POST, where the envelope can be marshalled, an attempt is allowed, and
-- at the first one the context is not done and the budget not used up.
pub handle-posts :
    (lib : Libraries) (env : Env) (ev : NotifyMessage) (st : State) (chs : List Channel)
    (before after : List OrgWebhook) (hook : OrgWebhook) (et : OrgWebhookEvent)
    → any (is_held (redis_key (dedup_id_of lib ev)) env.now) st.keys ≡ false
    → is_claimed ev.org_id (dedup_id_of lib ev) st ≡ false
    → env.claims ≡ works
    → get_channels_for_monitor env.loads_channels ev.org_id ev.monitor_id st.monitors st.channels
      ≡ ok chs
    → env.has_webhooks ≡ true
    → env.loads_webhooks ≡ works
    → list_enabled_webhooks ev.org_id st.webhooks ≡ before ++ hook ∷ after
    → hook.enabled ≡ true
    → subscribes hook.events et ≡ true
    → any (λ x. same_event x et) (org_event_types ev.event_type) ≡ true
    → IsOpen lib env.web ev hook et
    → any (is_post hook.id et) (handle lib env (some ev) st).posted ≡ true
handle-posts lib env ev st chs before after hook et free unclaimed claims loaded wired loads listed
      on wanted of_type open_to =
    let (done, sent, posted, claimed) =
      handle_first lib env ev st chs free unclaimed claims loaded in
    ap (any (is_post hook.id et)) posted
    ∙ deliver_webhooks-first lib env ev st before after hook et wired loads listed (
        deliver_org_webhooks-first lib env.web ev hook et open_to before after st.webhooks on wanted
          of_type)
