-- ===== src/Domain/SslWarn.antt =====
-- The expiry warning level of internal/domain/domain.go.
-- The source compares `Sub(now).Hours() / 24 <= float64(t)`. At t = 7, 3 and 1 this is the
-- comparison of nanoseconds below: the division rounds monotonically, t days give exactly t, and
-- one nanosecond more gives a float above t. A difference past 292 years is capped by Sub, which
-- is above every threshold too.
use pulse_pager.Prelude.{ℕ, ℤ, pos, negsuc, ◌-◌, ◌*◌, List, [], ◌∷◌, ltb, leb, if◌then◌else◌}
use pulse_pager.Domain.{Time, hour}

abbrev pub day : ℕ
day = 24 * hour

abbrev pub ssl_warn_thresholds : List ℕ
ssl_warn_thresholds = 7 ∷ 3 ∷ 1 ∷ []

-- The loop over the thresholds.
unfoldable pub tightest : ℤ → ℕ → List ℕ → ℤ
tightest level left [] = level
tightest level left (t ∷ ts) = tightest (if leb left (t * day) then pos t else level) left ts

unfoldable pub ssl_warn_level : Time → Time → ℤ
unfolding tightest
ssl_warn_level expires_at now =
    if ltb now expires_at then tightest (negsuc 0) (expires_at - now) ssl_warn_thresholds else pos 0
