-- ===== src/Notifier/Deliveries.antt =====
-- What the dispatch of internal/notify/service.go leaves in the table of deliveries, whatever the
-- order in which the goroutines run.
use pulse_pager.Prelude.{
  ℕ, ◌≡◌, ◌≢◌, refl, ◌∙◌, true, Option, none, List, [], ◌∷◌, map, All, find, Bool-cases, inl, inr,
  if◌then◌else◌,
}
use pulse_pager.Alerting.Service.{NotifyMessage}
use pulse_pager.Notifier.Config.{channel_id_from_cfg-stamp_channel_id}
use pulse_pager.Notifier.Channels.{
  Channel, Event, Net, Recorded, AttemptResult, Delivery, build_event, send_with_retry, collect,
  collector_get, record_outcome, record_outcomes, stamp, enrich, dispatch,
}
use pulse_pager.Notifier.Interleaving.{
  Interleaved, IsStamped, AreDistinct, latest, collector_get-collect, goroutines-latest,
}
use pulse_pager.Notifier.Attempts.{last_or, send_with_retry-latest}

-- The rows of each enabled channel in turn, from the last of its own attempts.
abbrev pub deliver_each : Net → NotifyMessage → Event → List Channel → List Delivery → List Delivery
deliver_each net ev nev [] rows = rows
deliver_each net ev nev (ch ∷ chs) rows =
    let recorded = record_outcome net ev ch (last_or none (send_with_retry net nev ch)) rows in
    deliver_each net ev nev chs (if ch.enabled then recorded else rows)

module _ (net : Net) (ev : NotifyMessage) where
  record_outcomes-deliver_each :
      (nev : Event) (get : ℕ → Option AttemptResult) (chs : List Channel) (rows : List Delivery)
      → All (λ ch. ch.enabled ≡ true → get ch.id ≡ last_or none (send_with_retry net nev ch)) chs
      → record_outcomes net ev get chs rows ≡ deliver_each net ev nev chs rows
  unfolding record_outcomes send_with_retry
  record_outcomes-deliver_each nev get [] rows h = refl
  record_outcomes-deliver_each nev get (ch ∷ chs) rows h = elim (Bool-cases ch.enabled) [
    | inl on ↦ rw (on, h.0 on) (record_outcomes-deliver_each nev get chs _ h.1)
    | inr off ↦ rw off (record_outcomes-deliver_each nev get chs rows h.1)
  ]

  pub stamp-IsStamped : (chs : List Channel) → All IsStamped (map stamp chs)
  stamp-IsStamped [] = tt
  stamp-IsStamped (ch ∷ chs) =
      (channel_id_from_cfg-stamp_channel_id ch.id ch.config, stamp-IsStamped chs)

  stamp-others :
      (id : ℕ) (chs : List Channel)
      → All (λ c. c.id ≢ id) chs
      → All (λ c. c.id ≢ id) (map stamp chs)
  stamp-others id [] h = tt
  stamp-others id (ch ∷ chs) h = (h.0, stamp-others id chs h.1)

  pub stamp-AreDistinct : (chs : List Channel) → AreDistinct chs → AreDistinct (map stamp chs)
  stamp-AreDistinct [] d = tt
  stamp-AreDistinct (ch ∷ chs) d = (stamp-others ch.id chs d.0, stamp-AreDistinct chs d.1)

  own-outcomes :
      (nev : Event) (zs : List Recorded) (chs : List Channel)
      → All IsStamped chs
      → All
          (λ ch.
            ch.enabled ≡ true
            → latest ch.id zs none ≡ latest ch.id (send_with_retry net nev ch) none)
          chs
      → All
          (λ ch.
            ch.enabled ≡ true
            → collector_get ch.id (collect zs []) ≡ last_or none (send_with_retry net nev ch))
          chs
  unfolding collector_get find
  own-outcomes nev zs [] s h = tt
  own-outcomes nev zs (ch ∷ chs) s h = (
    λ on. collector_get-collect ch.id zs [] ∙ h.0 on ∙ send_with_retry-latest net nev ch s.0,
    own-outcomes nev zs chs s.1 h.1,
  )

-- However the goroutines of a monitor's channels interleave, the table ends as if each enabled
-- channel had been tried alone, in the order of the channels.
pub dispatch-deliver_each :
    (net : Net) (ev : NotifyMessage) (channels : List Channel) (rows : List Delivery)
    → ((ts : List (List Recorded)) → Interleaved ts (net.merge ts))
    → AreDistinct channels
    → (dispatch net ev channels rows).1
      ≡ deliver_each net ev
          (enrich net.avg_latency (build_event ev net.now))
          (map stamp channels)
          rows
unfolding dispatch
dispatch-deliver_each net ev channels rows merged d =
    let nev = enrich net.avg_latency (build_event ev net.now) in
    let stamped = map stamp channels in
    let its = stamp-IsStamped net ev channels in
    record_outcomes-deliver_each net ev nev _ stamped rows (
      own-outcomes net ev nev _ stamped its
        (goroutines-latest net nev stamped _ its (stamp-AreDistinct net ev channels d) (merged _)))
