-- ===== src/Notifier/Interleaving.antt =====
-- The goroutines of Manager.Dispatch share the collector of internal/notify/service.go under a
-- lock: what they record reaches it in some interleaving of what each of them records.
use pulse_pager.Prelude.{
  ℕ, ◌+◌, ◌≡◌, ◌≢◌, refl, ap, sym, ◌∙◌, Bool, true, false, ◌||◌, Option, none, some, List, [], ◌∷◌,
  arith, any, find, All, All-mono, Bool-cases, inl, inr, if◌then◌else◌, zero, suc,
}
use pulse_pager.Notifier.Config.{channel_id_from_cfg}
use pulse_pager.Notifier.Channels.{
  Channel, Event, Net, Recorded, AttemptResult, Collector, for_channel, collect, collector_record,
  collector_get, goroutines, send_with_retry, send_loop, recording_send,
}

-- zs is xs and ys, each in its order.
pub data Shuffle {ℓ} {A : Type ℓ} : List A → List A → List A → Type ℓ where
  done : Shuffle [] [] []
  from_left : {x : A} {xs ys zs : List A} → Shuffle xs ys zs → Shuffle (x ∷ xs) ys (x ∷ zs)
  from_right : {y : A} {xs ys zs : List A} → Shuffle xs ys zs → Shuffle xs (y ∷ ys) (y ∷ zs)

-- zs is all the lists of ts, each in its order.
pub data Interleaved {ℓ} {A : Type ℓ} : List (List A) → List A → Type ℓ where
  over : Interleaved [] []
  and :
      {t : List A} {ts : List (List A)} {ys zs : List A}
      → Interleaved ts ys
      → Shuffle t ys zs
      → Interleaved (t ∷ ts) zs

-- What the last entry for a channel says, or `acc`.
unfoldable pub latest : ℕ → List Recorded → Option AttemptResult → Option AttemptResult
latest id [] acc = acc
latest id (e ∷ es) acc = latest id es (if for_channel id e then some e.1 else acc)

pub collector_get-collect :
    (id : ℕ) (es : List Recorded) (col : Collector)
    → collector_get id (collect es col) ≡ latest id es (collector_get id col)
unfolding collect collector_get latest collector_record find
collector_get-collect id [] col = refl
collector_get-collect id (e ∷ es) col = elim (Bool-cases (for_channel id e)) [
  | inl h ↦ rw h (collector_get-collect id es (e ∷ col) ∙ ap (latest id es) (rw h refl))
  | inr h ↦ rw h (collector_get-collect id es (e ∷ col) ∙ ap (latest id es) (rw h refl))
]

Shuffle-any {ℓ} :
    {A : Type ℓ} (p : A → Bool) {xs ys zs : List A}
    → Shuffle xs ys zs
    → any p zs ≡ (any p xs || any p ys)
Shuffle-any p Shuffle.done = refl
Shuffle-any p (Shuffle.from_left {x} s) = ground (arith, Shuffle-any p s)
Shuffle-any p (Shuffle.from_right {y} s) = ground (arith, Shuffle-any p s)

Shuffle-latest_left :
    (id : ℕ) {xs ys zs : List Recorded} (acc : Option AttemptResult)
    → Shuffle xs ys zs
    → any (for_channel id) ys ≡ false
    → latest id zs acc ≡ latest id xs acc
unfolding latest
Shuffle-latest_left id acc Shuffle.done h = refl
Shuffle-latest_left id acc (Shuffle.from_left s) h = Shuffle-latest_left id _ s h
Shuffle-latest_left id acc (Shuffle.from_right s) h = ground (arith, Shuffle-latest_left id acc s)

Shuffle-latest_right :
    (id : ℕ) {xs ys zs : List Recorded} (acc : Option AttemptResult)
    → Shuffle xs ys zs
    → any (for_channel id) xs ≡ false
    → latest id zs acc ≡ latest id ys acc
unfolding latest
Shuffle-latest_right id acc Shuffle.done h = refl
Shuffle-latest_right id acc (Shuffle.from_right s) h = Shuffle-latest_right id _ s h
Shuffle-latest_right id acc (Shuffle.from_left s) h = ground (arith, Shuffle-latest_right id acc s)

abbrev pub IsStamped : Channel → Type 0
IsStamped ch = channel_id_from_cfg ch.config ≡ ch.id

-- What a goroutine records is its channel's.
send_loop-own :
    (net : Net) (ev : Event) (ch : Channel) (left attempt count id : ℕ)
    → IsStamped ch
    → ch.id ≢ id
    → any (for_channel id) (send_loop net ev ch left attempt count) ≡ false
unfolding send_loop recording_send
send_loop-own net ev ch zero attempt count id s h = refl
send_loop-own net ev ch (suc left) attempt count id s h =
    let rest = send_loop-own net ev ch left (attempt + 1) (count + 1) id s h in
    elim (Bool-cases (net.cancelled ch.id attempt)) [
      | inl gone ↦ rw gone refl
      | inr on ↦ rw on (ground (arith, rest))
    ]

send_with_retry-own :
    (net : Net) (ev : Event) (ch : Channel) (id : ℕ)
    → IsStamped ch
    → ch.id ≢ id
    → any (for_channel id) (send_with_retry net ev ch) ≡ false
unfolding send_with_retry
send_with_retry-own net ev ch id s h =
    ground (arith, send_loop-own net ev ch net.max_retries 1 0 id s h)

-- The ids are all different.
abbrev pub AreDistinct : List Channel → Type 0
AreDistinct [] = Unit
AreDistinct (ch ∷ chs) = All (λ c. c.id ≢ ch.id) chs × AreDistinct chs

All-both {ℓ κ} :
    {A : Type ℓ} (P Q : A → Type κ) (xs : List A) → All P xs → All Q xs → All (λ x. P x × Q x) xs
All-both P Q [] h k = tt
All-both P Q (x ∷ xs) h k = ((h.0, k.0), All-both P Q xs h.1 k.1)

head_of {ℓ} :
    {A : Type ℓ} {t : List A} {ts : List (List A)} {zs : List A}
    → Interleaved (t ∷ ts) zs
    → (ys : List A) × Interleaved ts ys × Shuffle t ys zs
head_of (Interleaved.and {ys} i s) = (ys, i, s)

module _ (net : Net) (ev : Event) where
  goroutines-foreign :
      (id : ℕ) (chs : List Channel) (zs : List Recorded)
      → All IsStamped chs
      → All (λ c. c.id ≢ id) chs
      → Interleaved (goroutines net ev chs) zs
      → any (for_channel id) zs ≡ false
  unfolding goroutines
  goroutines-foreign id [] zs s h Interleaved.over = refl
  goroutines-foreign id (ch ∷ chs) zs s h i = elim (Bool-cases ch.enabled) [
    | inl on ↦
        let (ys, j, mixed) = head_of (rw on at i) in
        Shuffle-any (for_channel id) mixed
        ∙ ground (
          arith,
          send_with_retry-own net ev ch id s.0 h.0,
          goroutines-foreign id chs ys s.1 h.1 j,
        )
    | inr off ↦ goroutines-foreign id chs zs s.1 h.1 (rw off at i)
  ]

  -- The entries hold for each channel what its own goroutine recorded last.
  pub goroutines-latest :
      (chs : List Channel) (zs : List Recorded)
      → All IsStamped chs
      → AreDistinct chs
      → Interleaved (goroutines net ev chs) zs
      → All
          (λ ch.
            ch.enabled ≡ true
            → latest ch.id zs none ≡ latest ch.id (send_with_retry net ev ch) none)
          chs
  unfolding goroutines send_with_retry
  goroutines-latest [] zs s d i = tt
  goroutines-latest (ch ∷ chs) zs s d i = elim (Bool-cases ch.enabled) [
    | inl on ↦
        let (ys, j, mixed) = head_of (rw on at i) in
        (
          λ e. Shuffle-latest_left ch.id none mixed (goroutines-foreign ch.id chs ys s.1 d.0 j),
          All-mono _ _
              (λ c h e.
                Shuffle-latest_right c.id none mixed
                  (send_with_retry-own net ev ch c.id s.0 (λ same. h.0 (sym same)))
                ∙ h.1 e)
              chs (All-both _ _ chs d.0 (goroutines-latest chs ys s.1 d.1 j)),
        )
    | inr off ↦
        (λ on. absurd (ground (arith, on, off)), goroutines-latest chs zs s.1 d.1 (rw off at i))
  ]
