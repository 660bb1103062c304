-- ===== src/Alerting/DedupKey.antt =====
-- The deduplication key of internal/alerting/service.go.
use pulse_pager.Prelude.{
  ℕ, ℤ, ◌≡◌, Option, none, some, ◌++◌, arith, digits-cut, format_int-IsDigit, format_int-injective,
  format_signed-injective, format_int,
}
use pulse_pager.Alerting.Engine.{NotifyEventType, down, recovery}
use pulse_pager.Alerting.Service.{kind_bytes, warn_suffix, dedup_input}

warn_suffix-injective : (v w : Option ℤ) → warn_suffix v ≡ warn_suffix w → v ≡ w
warn_suffix-injective none none h = cc
warn_suffix-injective none (some b) h = cc
warn_suffix-injective (some a) none h = cc
warn_suffix-injective (some a) (some b) h = ground (arith, format_signed-injective a b)

tail-injective :
    (j k : NotifyEventType) (v w : Option ℤ)
    → kind_bytes j ++ warn_suffix v ≡ kind_bytes k ++ warn_suffix w
    → (j ≡ k) × (v ≡ w)
tail-injective down down v w h = ground (arith, warn_suffix-injective v w)
tail-injective down recovery v w h = absurd (ground arith)
tail-injective recovery down v w h = absurd (ground arith)
tail-injective recovery recovery v w h = ground (arith, warn_suffix-injective v w)

-- The hashed text tells incidents, kinds of event and expiry levels apart: two notifications share
-- it only if all three agree.
pub dedup_input-injective :
    (i k : ℕ) (s t : NotifyEventType) (v w : Option ℤ)
    → dedup_input i s v ≡ dedup_input k t w
    → (i ≡ k) × (s ≡ t) × (v ≡ w)
unfolding dedup_input
dedup_input-injective i k s t v w h =
    let (ids, rest) =
      digits-cut (format_int i) (format_int k) _ _ b':' (omega arith) (format_int-IsDigit i)
        (format_int-IsDigit k) h in
    let (kinds, days) = tail-injective s t v w rest in (format_int-injective i k ids, kinds, days)
