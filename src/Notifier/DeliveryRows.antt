-- ===== src/Notifier/DeliveryRows.antt =====
-- What the dispatch of internal/notify/service.go leaves in the row of a channel.
use pulse_pager.Prelude.{
  ℕ, ◌≡◌, ◌≢◌, refl, ap, ◌∙◌, Bool, true, false, ◌&&◌, Option, none, some, List, [], ◌∷◌, ◌++◌, map,
  All, find, any, String, update_where, ◌==◌, Bool-cases, inl, inr, arith, if◌then◌else◌,
}
use pulse_pager.Domain.{Time}
use pulse_pager.Store.Db.{Link, lost}
use pulse_pager.Alerting.Engine.{NotifyEventType}
use pulse_pager.Alerting.Service.{NotifyMessage}
use pulse_pager.Notifier.Channels.{
  Channel, Event, Net, Recorded, AttemptResult, Delivery, DeliveryStatus, build_event,
  send_with_retry, same_kind, text_or_null, upsert_delivery, record_delivery, record_outcome,
  delivery_of, stamp, enrich, dispatch,
}
use pulse_pager.Notifier.Interleaving.{Interleaved, AreDistinct}
use pulse_pager.Notifier.Attempts.{last_or}
use pulse_pager.Notifier.Deliveries.{deliver_each, dispatch-deliver_each}

-- Is it the row of the notification and the channel?
abbrev pub is_row_of : NotifyMessage → ℕ → Delivery → Bool
is_row_of ev id d =
    ev.org_id == d.org_id
    && ev.incident_id == d.incident_id
    && id == d.channel_id
    && same_kind ev.event_type d.event_type

-- The row that tells an outcome.
abbrev pub row_telling : NotifyMessage → Time → ℕ → AttemptResult → Delivery
row_telling ev now id res = record {
  org_id = ev.org_id;
  incident_id = ev.incident_id;
  channel_id = id;
  event_type = ev.event_type;
  status = elim res.error [ none ↦ DeliveryStatus.delivered | some e ↦ DeliveryStatus.failed ];
  attempts = res.attempts;
  last_error = text_or_null res.error;
  delivered_at = now;
}

same_kind_refl : (kind : NotifyEventType) → same_kind kind kind ≡ true
same_kind_refl NotifyEventType.down = refl
same_kind_refl NotifyEventType.recovery = refl

delivery_of-row_telling :
    (ev : NotifyMessage) (now : Time) (ch : Channel) (res : AttemptResult)
    → delivery_of ev now ch res ≡ row_telling ev now ch.id res
delivery_of-row_telling ev now ch res = by_error res.error
  where
    by_error :
        (error : Option String)
        → delivery_of ev now ch (record { attempts = res.attempts; error = error })
          ≡ row_telling ev now ch.id (record { attempts = res.attempts; error = error })
    by_error none = refl
    by_error (some e) = refl

find-put :
    (p : Delivery → Bool) (d : Delivery) (rows : List Delivery)
    → p d ≡ true
    → any p rows ≡ true
    → find p (update_where p (λ old. d) rows) ≡ some d
unfolding find update_where
find-put p d [] h k = absurd (ground (arith, k))
find-put p d (x ∷ xs) h k = elim (Bool-cases (p x)) [
  | inl e ↦ rw e (rw h refl)
  | inr e ↦ rw e (rw e (find-put p d xs h (rw e at k)))
]

find-new :
    (p : Delivery → Bool) (d : Delivery) (rows : List Delivery)
    → p d ≡ true
    → any p rows ≡ false
    → find p (rows ++ d ∷ []) ≡ some d
unfolding find
find-new p d [] h k = rw h refl
find-new p d (x ∷ xs) h k = elim (Bool-cases (p x)) [
  | inl e ↦ absurd (ground (arith, k, e))
  | inr e ↦ rw e (find-new p d xs h (rw e at k))
]

-- Rows that `q` finds are left alone by a change of those that `p` finds.
find-others :
    (p q : Delivery → Bool) (d : Delivery) (rows : List Delivery)
    → q d ≡ false
    → ((x : Delivery) → p x ≡ true → q x ≡ false)
    → (find q (update_where p (λ old. d) rows) ≡ find q rows)
      × (find q (rows ++ d ∷ []) ≡ find q rows)
unfolding find update_where
find-others p q d [] h k = (refl, rw h refl)
find-others p q d (x ∷ xs) h k =
    let (put, added) = find-others p q d xs h k in
    let appended = ap (λ rest. if q x then some x else rest) added in
    elim (Bool-cases (p x)) [
      | inl e ↦ (rw e (rw h (rw (k x e) put)), appended)
      | inr e ↦ (rw e (ap (λ rest. if q x then some x else rest) put), appended)
    ]

module _ (net : Net) (ev : NotifyMessage) where
  record_outcome-row :
      (ch : Channel) (res : AttemptResult) (rows : List Delivery)
      → net.records ch.id ≢ lost
      → find (is_row_of ev ch.id) (record_outcome net ev ch (some res) rows)
        ≡ some (row_telling ev net.now ch.id res)
  unfolding record_outcome record_delivery upsert_delivery
  record_outcome-row ch res rows kept =
      by_link (net.records ch.id) kept ∙ ap some (delivery_of-row_telling ev net.now ch res)
    where
      d : Delivery
      d = delivery_of ev net.now ch res

      its : is_row_of ev ch.id d ≡ true
      its = ground (arith, same_kind_refl ev.event_type)

      put : find (is_row_of ev ch.id) (upsert_delivery d rows) ≡ some d
      put = elim (Bool-cases (any (is_row_of ev ch.id) rows)) [
        | inl there ↦ rw there (find-put (is_row_of ev ch.id) d rows its there)
        | inr missing ↦ rw missing (find-new (is_row_of ev ch.id) d rows its missing)
      ]

      by_link :
          (link : Link)
          → link ≢ lost
          → find (is_row_of ev ch.id) (record_delivery link d rows) ≡ some d
      by_link Link.works n = put
      by_link Link.lost n = absurd (n refl)
      by_link Link.commit_unknown n = put

  record_outcome-others :
      (ch : Channel) (outcome : Option AttemptResult) (rows : List Delivery) (id : ℕ)
      → ch.id ≢ id
      → find (is_row_of ev id) (record_outcome net ev ch outcome rows) ≡ find (is_row_of ev id) rows
  unfolding record_outcome record_delivery upsert_delivery
  record_outcome-others ch none rows id other = refl
  record_outcome-others ch (some res) rows id other = by_link (net.records ch.id)
    where
      d : Delivery
      d = delivery_of ev net.now ch res

      alone :
          (find (is_row_of ev id) (update_where (is_row_of ev ch.id) (λ old. d) rows)
            ≡ find (is_row_of ev id) rows)
          × (find (is_row_of ev id) (rows ++ d ∷ []) ≡ find (is_row_of ev id) rows)
      alone =
          find-others (is_row_of ev ch.id) (is_row_of ev id) d rows (ground (arith, other))
            (λ x e. ground (arith, other, e))

      put : find (is_row_of ev id) (upsert_delivery d rows) ≡ find (is_row_of ev id) rows
      put = elim (Bool-cases (any (is_row_of ev ch.id) rows)) [
        | inl there ↦ rw there alone.0
        | inr missing ↦ rw missing alone.1
      ]

      by_link :
          (link : Link)
          → find (is_row_of ev id) (record_delivery link d rows) ≡ find (is_row_of ev id) rows
      by_link Link.works = put
      by_link Link.lost = refl
      by_link Link.commit_unknown = put

  abbrev step : Event → Channel → List Delivery → List Delivery
  step nev ch rows =
      if ch.enabled
      then record_outcome net ev ch (last_or none (send_with_retry net nev ch)) rows
      else rows

  step-others :
      (nev : Event) (ch : Channel) (rows : List Delivery) (id : ℕ)
      → ch.id ≢ id
      → find (is_row_of ev id) (step nev ch rows) ≡ find (is_row_of ev id) rows
  step-others nev ch rows id other = by_case ch.enabled
    where
      sent : List Delivery
      sent = record_outcome net ev ch (last_or none (send_with_retry net nev ch)) rows

      by_case :
          (b : Bool)
          → find (is_row_of ev id) (if b then sent else rows) ≡ find (is_row_of ev id) rows
      by_case true =
          record_outcome-others ch (last_or none (send_with_retry net nev ch)) rows id other
      by_case false = refl

  deliver_each-others :
      (nev : Event) (chs : List Channel) (rows : List Delivery) (id : ℕ)
      → All (λ c. c.id ≢ id) chs
      → find (is_row_of ev id) (deliver_each net ev nev (map stamp chs) rows)
        ≡ find (is_row_of ev id) rows
  deliver_each-others nev [] rows id h = refl
  deliver_each-others nev (ch ∷ chs) rows id h =
      deliver_each-others nev chs _ id h.1 ∙ step-others nev (stamp ch) rows id h.0

  deliver_each-row :
      (nev : Event) (before after : List Channel) (ch : Channel) (rows : List Delivery)
      (res : AttemptResult)
      → AreDistinct (before ++ ch ∷ after)
      → ch.enabled ≡ true
      → last_or none (send_with_retry net nev (stamp ch)) ≡ some res
      → net.records ch.id ≢ lost
      → find (is_row_of ev ch.id) (deliver_each net ev nev (map stamp (before ++ ch ∷ after)) rows)
        ≡ some (row_telling ev net.now ch.id res)
  deliver_each-row nev [] after ch rows res d on last kept =
      deliver_each-others nev after _ ch.id d.0
      ∙ ap
          (λ b.
            find (is_row_of ev ch.id)
              (if b then told (last_or none (send_with_retry net nev (stamp ch))) else rows))
          on
      ∙ ap (λ outcome. find (is_row_of ev ch.id) (told outcome)) last
      ∙ record_outcome-row (stamp ch) res rows kept
    where
      told : Option AttemptResult → List Delivery
      told outcome = record_outcome net ev (stamp ch) outcome rows
  deliver_each-row nev (x ∷ before) after ch rows res d on last kept =
      deliver_each-row nev before after ch _ res d.1 on last kept

-- However the goroutines of a monitor's channels interleave, and whatever becomes of the others, the
-- row of an enabled channel that was tried at all tells, where no two of the channels have one id
-- and the write of the row is not lost, the outcome of the last of the channel's own attempts: delivered if that one gave no error and failed otherwise, its number, and
-- its error's text.
pub dispatch-row_telling :
    (net : Net) (ev : NotifyMessage) (before after : List Channel) (ch : Channel)
    (rows : List Delivery) (res : AttemptResult)
    → ((ts : List (List Recorded)) → Interleaved ts (net.merge ts))
    → AreDistinct (before ++ ch ∷ after)
    → ch.enabled ≡ true
    → last_or none
        (send_with_retry net (enrich net.avg_latency (build_event ev net.now)) (stamp ch))
      ≡ some res
    → net.records ch.id ≢ lost
    → find (is_row_of ev ch.id) (dispatch net ev (before ++ ch ∷ after) rows).1
      ≡ some (row_telling ev net.now ch.id res)
dispatch-row_telling net ev before after ch rows res merged d on last kept =
    ap (find (is_row_of ev ch.id))
      (dispatch-deliver_each net ev (before ++ ch ∷ after) rows merged d)
    ∙ deliver_each-row net ev (enrich net.avg_latency (build_event ev net.now)) before after ch rows
        res d on last kept
