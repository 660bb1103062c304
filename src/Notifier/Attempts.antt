-- ===== src/Notifier/Attempts.antt =====
-- internal/notify/notify.go, sendWithRetry: which attempts a channel is given.
use pulse_pager.Prelude.{
  ℕ, zero, suc, ◌+◌, ◌≤◌, ◌≡◌, refl, ap, String, Bool, true, false, not, Option, none, some,
  is_some, List, [], ◌∷◌, arith, any, length, Bool-cases, Option-cases, inl, inr, ltb,
}
use pulse_pager.Notifier.Config.{strip_channel_id}
use pulse_pager.Notifier.Channels.{
  Channel, Event, Net, Recorded, AttemptResult, send_with_retry, send_loop, recording_send,
}
use pulse_pager.Notifier.Interleaving.{IsStamped, latest}

-- The result of the last entry, or `acc` if there is none.
abbrev pub last_or : Option AttemptResult → List Recorded → Option AttemptResult
last_or acc [] = acc
last_or acc (e ∷ es) = last_or (some e.1) es

-- Entries of one channel, numbered from n on, of which only the last one may be a success.
abbrev pub AreRetries : ℕ → ℕ → List Recorded → Type 0
AreRetries id n [] = Unit
AreRetries id n (e ∷ []) = (e.0 ≡ id) × (e.1.attempts ≡ n)
AreRetries id n (e ∷ f ∷ es) =
    (e.0 ≡ id) × (e.1.attempts ≡ n) × (is_some e.1.error ≡ true) × AreRetries id (n + 1) (f ∷ es)

abbrev pub reached : Option AttemptResult → Bool
reached none = false
reached (some r) = not (is_some r.error)

-- The numbers of n attempts, from a on.
abbrev pub attempts_from : ℕ → ℕ → List ℕ
attempts_from a zero = []
attempts_from a (suc n) = a ∷ attempts_from (a + 1) n

abbrev pub answers : Net → Event → Channel → ℕ → Bool
answers net ev ch k = not (is_some (net.sends ev ch.id (strip_channel_id ch.config) k))

-- The context is not done while the channel is tried.
pub record IsCalm (net : Net) (ch : Channel) : Type 0 where
  pub uncancelled : (k : ℕ) → net.cancelled ch.id k ≡ false
  pub slept : (k : ℕ) → net.sleeps ch.id k ≡ true

AreRetries-cons :
    (id n i k : ℕ) (x : String) (es : List Recorded)
    → i ≡ id
    → k ≡ n
    → AreRetries id (n + 1) es
    → AreRetries id n ((i, record { attempts = k; error = some x }) ∷ es)
AreRetries-cons id n i k x [] a b d = (a, b)
AreRetries-cons id n i k x (f ∷ es) a b d = (a, b, refl, d)

module _ (net : Net) (ev : Event) (ch : Channel) where
  send_loop-AreRetries :
      (more attempt count : ℕ)
      → IsStamped ch
      → AreRetries ch.id (count + 1) (send_loop net ev ch more attempt count)
        × (length (send_loop net ev ch more attempt count) ≤ more)
  unfolding send_loop recording_send
  send_loop-AreRetries zero attempt count s = (tt, omega arith)
  send_loop-AreRetries (suc more) attempt count s =
      let (retries, short) = send_loop-AreRetries more (attempt + 1) (count + 1) s in
      elim (Bool-cases (net.cancelled ch.id attempt)) [
        | inl gone ↦ rw gone (tt, omega arith)
        | inr on ↦ elim (Option-cases (net.sends ev ch.id (strip_channel_id ch.config) attempt)) [
          | inl fine ↦ rw (on, fine) ((s, refl), omega arith)
          | inr (e, bad) ↦ elim (Bool-cases (ltb attempt net.max_retries)) [
            | inl again ↦ elim (Bool-cases (net.sleeps ch.id attempt)) [
              | inl slept ↦
                  rw (on, bad, again, slept)
                    (AreRetries-cons _ _ _ _ e _ s refl retries, omega (arith, short))
              | inr woken ↦ rw (on, bad, again, woken) ((s, refl), omega arith)
            ]
            | inr last ↦
                rw (on, bad, last)
                  (AreRetries-cons _ _ _ _ e _ s refl retries, omega (arith, short))
          ]
        ]
      ]

  send_loop-reached :
      (more attempt count : ℕ) (acc : Option AttemptResult)
      → IsCalm net ch
      → reached acc ≡ false
      → (reached (last_or acc (send_loop net ev ch more attempt count))
          ≡ any (answers net ev ch) (attempts_from attempt more))
        × (reached (last_or acc (send_loop net ev ch more attempt count)) ≡ false
            → length (send_loop net ev ch more attempt count) ≡ more)
  unfolding send_loop recording_send
  send_loop-reached zero attempt count acc c h = (h, λ e. refl)
  send_loop-reached (suc more) attempt count acc c h =
      elim (Option-cases (net.sends ev ch.id (strip_channel_id ch.config) attempt)) [
        | inl fine ↦ rw (c.uncancelled attempt, fine) (refl, λ lost. absurd (ground (arith, lost)))
        | inr (e, bad) ↦
            let failed : Option AttemptResult =
              some (record { attempts = count + 1; error = some e }) in
            let (same, all) = send_loop-reached more (attempt + 1) (count + 1) failed c refl in
            elim (Bool-cases (ltb attempt net.max_retries)) [
              | inl again ↦
                  rw (c.uncancelled attempt, bad, again, c.slept attempt)
                    (same, λ e. ap suc (all e))
              | inr last ↦ rw (c.uncancelled attempt, bad, last) (same, λ e. ap suc (all e))
            ]
      ]

-- What sendWithRetry records for a channel is numbered from one on without a gap, only the last
-- attempt can have succeeded, and there are no more attempts than the Manager's limit.
pub send_with_retry-AreRetries :
    (net : Net) (ev : Event) (ch : Channel)
    → IsStamped ch
    → AreRetries ch.id 1 (send_with_retry net ev ch)
      × (length (send_with_retry net ev ch) ≤ net.max_retries)
unfolding send_with_retry
send_with_retry-AreRetries net ev ch s = elim (Bool-cases (net.provides ch.type)) [
  | inl known ↦ rw known (send_loop-AreRetries net ev ch net.max_retries 1 0 s)
  | inr none_for ↦ rw none_for (tt, omega arith)
]

-- While the context is not done, a channel of a known type is reached exactly if its provider
-- would take one of the first max_retries attempts, and it is given up only after all of them.
pub send_with_retry-reached :
    (net : Net) (ev : Event) (ch : Channel)
    → IsCalm net ch
    → net.provides ch.type ≡ true
    → (reached (last_or none (send_with_retry net ev ch))
        ≡ any (answers net ev ch) (attempts_from 1 net.max_retries))
      × (reached (last_or none (send_with_retry net ev ch)) ≡ false
          → length (send_with_retry net ev ch) ≡ net.max_retries)
unfolding send_with_retry
send_with_retry-reached net ev ch c known =
    rw known (send_loop-reached net ev ch net.max_retries 1 0 none c refl)

AreRetries-latest :
    (id n : ℕ) (es : List Recorded) (acc : Option AttemptResult)
    → AreRetries id n es
    → latest id es acc ≡ last_or acc es
unfolding latest
AreRetries-latest id n [] acc r = refl
AreRetries-latest id n (e ∷ []) acc r = ground (arith, r)
AreRetries-latest id n (e ∷ f ∷ es) acc r =
    ground (arith, r.0, AreRetries-latest id (n + 1) (f ∷ es) (some e.1) r.3)

pub send_with_retry-latest :
    (net : Net) (ev : Event) (ch : Channel)
    → IsStamped ch
    → latest ch.id (send_with_retry net ev ch) none ≡ last_or none (send_with_retry net ev ch)
send_with_retry-latest net ev ch s =
    AreRetries-latest ch.id 1 (send_with_retry net ev ch) none
      (send_with_retry-AreRetries net ev ch s).0
