-- ===== src/Notifier/Service.antt =====
-- internal/notify/service.go, handle, with GetChannelsForMonitor and ClaimNotifyDedup of
-- internal/store/channels.go and SetIfAbsent of internal/kv: one notify.events record, which is
-- deduplicated and then sent to the monitor's channels and the org's webhooks. The tables are lists
-- in the order of their ids, and Redis is the keys that it holds until they expire. An Env says what
-- the world does during one call. Metrics, spans and log lines are left out. The event types are
-- the two that alerting sends.
use pulse_pager.Prelude.{
  ℕ, ◌+◌, ◌*◌, Bool, true, false, not, ◌&&◌, Option, none, some, List, [], ◌∷◌, ◌++◌, ltb, ◌==◌,
  any, find, keep_where, if◌then◌else◌, format_int, codes,
}
use pulse_pager.Domain.{Time, hour}
use pulse_pager.Store.Db.{
  unavailable, Result, ok, err, Link, works, lost, commit_unknown, MonitorRow, is_row,
}
use pulse_pager.Alerting.Engine.{NotifyEventType}
use pulse_pager.Alerting.Service.{NotifyMessage, kind_bytes}
use pulse_pager.Notifier.Channels.{Channel, Recorded, Net, Delivery, dispatch}
use pulse_pager.Notifier.OrgWebhooks.{
  OrgWebhook, Post, Web, Libraries, list_enabled_webhooks, deliver_org_webhooks,
}

-- The equality of texts, as lists of bytes.
abbrev pub bytes_eq : List ℕ → List ℕ → Bool
bytes_eq [] [] = true
bytes_eq (x ∷ xs) (y ∷ ys) = x == y && bytes_eq xs ys
bytes_eq _ _ = false

-- A key that Redis holds, and when it expires.
pub record CachedKey : Type 0 where
  pub key : List ℕ
  pub expires_at : Time

-- A row of notify_dedup.
pub record Claim : Type 0 where
  pub org_id : ℕ
  pub dedup_id : List ℕ

pub record State : Type 0 where
  pub keys : List CachedKey
  pub claims : List Claim
  pub monitors : List MonitorRow
  pub channels : List Channel
  pub webhooks : List OrgWebhook
  pub deliveries : List Delivery

pub record Env : Type 0 where
  -- are a cache and a webhook store wired?
  pub has_cache : Bool
  pub has_webhooks : Bool
  pub sets : Link
  pub claims : Link
  pub loads_channels : Link
  pub loads_webhooks : Link
  pub now : Time
  pub net : Net
  pub web : Web

-- How a call on `s` ends that would leave `s'` and return `a`.
abbrev pub end_as {ℓ} : {S A : Type ℓ} → Link → S → S → A → S × Result A
end_as works s s' a = (s', ok a)
end_as lost s s' a = (s, err unavailable)
end_as commit_unknown s s' a = (s', err unavailable)

-- Does Redis hold the key at the time `now`?
abbrev pub is_held : List ℕ → Time → CachedKey → Bool
is_held key now k = bytes_eq k.key key && ltb now k.expires_at

-- SetIfAbsent: SET NX EX, and whether the key is new.
unfoldable pub set_if_absent :
    Link → List ℕ → ℕ → Time → List CachedKey → List CachedKey × Result Bool
set_if_absent link key ttl now keys =
    let added = record { key = key; expires_at = now + ttl } ∷ keys in
    if any (is_held key now) keys then end_as link keys keys false else end_as link keys added true

abbrev pub is_claim : ℕ → List ℕ → Claim → Bool
is_claim org_id dedup_id c = c.org_id == org_id && bytes_eq c.dedup_id dedup_id

-- ClaimNotifyDedup
unfoldable pub claim_notify_dedup : Link → ℕ → List ℕ → List Claim → List Claim × Result Bool
claim_notify_dedup link org_id dedup_id claims =
    let added = record { org_id = org_id; dedup_id = dedup_id } ∷ claims in
    if any (is_claim org_id dedup_id) claims
    then end_as link claims claims false
    else end_as link claims added true

abbrev mem_id : List ℕ → ℕ → Bool
mem_id ids id = any (λ x. x == id) ids

abbrev pub attached : Option MonitorRow → List ℕ
attached none = []
attached (some row) = row.monitor.channel_ids

-- GetChannelsForMonitor
unfoldable pub get_channels_for_monitor :
    Link → ℕ → ℕ → List MonitorRow → List Channel → Result (List Channel)
unfolding find
get_channels_for_monitor link org_id monitor_id monitors channels = elim link [
  | works ↦ ok selected
  | lost ↦ err unavailable
  | commit_unknown ↦ err unavailable
]
  where
    selected : List Channel
    selected =
        keep_where
          (λ c.
            c.org_id == org_id
            && c.enabled
            && mem_id (attached (find (is_row org_id monitor_id) monitors)) c.id)
          channels

-- The default of dedupTTL, in seconds and nanoseconds.
abbrev pub dedup_ttl : ℕ
dedup_ttl = 24 * hour

-- What the DedupKey of this package hashes.
unfoldable pub dedup_key_input : ℕ → NotifyEventType → List ℕ
dedup_key_input incident_id event_type = format_int incident_id ++ (0 ∷ kind_bytes event_type)

-- Runner.dedup, from the cache's answer on: is the caller the first?
unfoldable pub claim_first : Env → ℕ → List ℕ → State → State × Result Bool
unfolding claim_notify_dedup
claim_first env org_id dedup_id st =
    let (claims, claimed) = claim_notify_dedup env.claims org_id dedup_id st.claims in
    (record st { claims = claims }, claimed)

abbrev pub redis_key : List ℕ → List ℕ
redis_key dedup_id = codes "pulse:notify:dedup:" ++ dedup_id

-- Runner.dedup
unfoldable pub dedup : Env → ℕ → List ℕ → State → State × Result Bool
unfolding set_if_absent claim_first
dedup env org_id dedup_id st =
    let (keys, set) = set_if_absent env.sets (redis_key dedup_id) dedup_ttl env.now st.keys in
    let cached = record st { keys = keys } in
    if not env.has_cache
    then claim_first env org_id dedup_id st
    else after_cache env org_id dedup_id cached set
  where
    after_cache : Env → ℕ → List ℕ → State → Result Bool → State × Result Bool
    after_cache env org_id dedup_id st (ok false) = (st, ok false)
    after_cache env org_id dedup_id st (ok true) = claim_first env org_id dedup_id st
    after_cache env org_id dedup_id st (err e) = claim_first env org_id dedup_id st

-- What one call of the handler leaves: the tables, what its sends have recorded, what it has
-- posted, and its error.
pub record Handled : Type 0 where
  pub state : State
  pub sent : List Recorded
  pub posted : List Post
  pub returned : Result (Unit {0})

-- The channels' part of handle: a monitor without channels is no error.
unfoldable pub notify_channels :
    Net → NotifyMessage → List Channel → List Delivery → List Recorded × List Delivery
unfolding dispatch
notify_channels net ev [] rows = ([], rows)
notify_channels net ev (ch ∷ chs) rows = dispatch net ev (ch ∷ chs) rows

module _ (lib : Libraries) where
  -- deliverWebhooks
  unfoldable pub deliver_webhooks : Env → NotifyMessage → State → List Post × List OrgWebhook
  unfolding deliver_org_webhooks
  deliver_webhooks env ev st =
      let hooks = list_enabled_webhooks ev.org_id st.webhooks in
      if not env.has_webhooks then ([], st.webhooks) else elim env.loads_webhooks [
        | works ↦ deliver_org_webhooks lib env.web ev hooks st.webhooks
        | lost ↦ ([], st.webhooks)
        | commit_unknown ↦ ([], st.webhooks)
      ]

  -- handle, from the channels on
  unfoldable pub notify : Env → NotifyMessage → List Channel → State → Handled
  unfolding notify_channels deliver_webhooks
  notify env ev channels st =
      let (sent, deliveries) = notify_channels env.net ev channels st.deliveries in
      let (posted, webhooks) = deliver_webhooks env ev st in
      record {
        state = record st { deliveries = deliveries; webhooks = webhooks };
        sent = sent;
        posted = posted;
        returned = ok tt;
      }

  -- handle, from the answer of dedup on
  unfoldable pub after_dedup : Env → NotifyMessage → State → Result Bool → Handled
  unfolding notify get_channels_for_monitor
  after_dedup env ev st (err e) = record { state = st; sent = []; posted = []; returned = err e }
  after_dedup env ev st (ok false) = record { state = st; sent = []; posted = []; returned = ok tt }
  after_dedup env ev st (ok true) =
      elim (get_channels_for_monitor env.loads_channels ev.org_id ev.monitor_id st.monitors
        st.channels) [
          | err e ↦ record { state = st; sent = []; posted = []; returned = err e }
          | ok channels ↦ notify env ev channels st
        ]

  -- The id that handle deduplicates by. DedupKey stands in for an empty one.
  unfoldable pub dedup_id_of : NotifyMessage → List ℕ
  unfolding dedup_key_input
  dedup_id_of ev = or_derived ev.dedup_key
    where
      or_derived : List ℕ → List ℕ
      or_derived [] = lib.sha256_hex (dedup_key_input ev.incident_id ev.event_type)
      or_derived (c ∷ cs) = c ∷ cs

  -- handle, on a payload that has been read, or not at all
  unfoldable pub handle : Env → Option NotifyMessage → State → Handled
  unfolding after_dedup dedup dedup_id_of
  handle env none st = record { state = st; sent = []; posted = []; returned = ok tt }
  handle env (some ev) st =
      let (st', first) = dedup env ev.org_id (dedup_id_of ev) st in after_dedup env ev st' first
