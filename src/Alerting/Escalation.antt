-- ===== src/Alerting/Escalation.antt =====
-- The expiry warnings of internal/alerting/alerting.go on an incident that stays open.
use pulse_pager.Prelude.{
  ℕ, ℤ, pos, negsuc, ◌≡◌, refl, true, false, Option, none, some, List, [], ◌∷◌, arith, All, ◌<ℤ◌,
  ◌≤ℤ◌, is_some, Option-cases, inl, inr,
}
use pulse_pager.Domain.{Monitor, CheckResult, AlertState, is_ssl}
use pulse_pager.Domain.SslWarn.{ssl_warn_level}
use pulse_pager.Alerting.Engine.{Decision, ssl_level, apply}

-- The alert state with the counters of a decision written back, which is all that happens to it
-- while the incident stays open.
abbrev pub carry : Decision → AlertState → AlertState
carry d state = record state {
  consecutive_fails = d.new_consecutive;
  first_fail_at = d.new_first_fail_at;
  ssl_warned_days = d.new_ssl_warned_days;
}

-- The levels that are notified in the course of some checks.
abbrev level_of : Decision → Option ℤ
level_of d = elim d.notify [ none ↦ none | some e ↦ e.warn_days ]

pub warnings : Monitor → AlertState → List CheckResult → List ℤ
warnings m state [] = []
warnings m state (r ∷ rs) =
    let d = apply m r state in
    let rest = warnings m (carry d state) rs in
    elim (level_of d) [ none ↦ rest | some level ↦ level ∷ rest ]

-- Each level is below the one before, the first below the bound, if there is one.
abbrev pub DescendsFrom : Option ℤ → List ℤ → Type 0
DescendsFrom bound [] = Unit
DescendsFrom none (l ∷ ls) = DescendsFrom (some l) ls
DescendsFrom (some w) (l ∷ ls) = (l <ℤ w) × DescendsFrom (some l) ls

abbrev pub Fails : CheckResult → Type 0
Fails r = r.healthy ≡ false

-- On an open incident an ssl monitor's warnings grow strictly tighter: none is sent twice.
pub warnings-DescendsFrom :
    (m : Monitor) (state : AlertState) (rs : List CheckResult)
    → is_ssl m.type ≡ true
    → is_some state.open_incident ≡ true
    → All Fails rs
    → DescendsFrom state.ssl_warned_days (warnings m state rs)
unfolding warnings apply
warnings-DescendsFrom m state [] s o f = tt
warnings-DescendsFrom m state (r ∷ rs) s o f =
    ground (arith, warnings-DescendsFrom m (carry (apply m r state) state) rs s o f.1)

ssl_warn_level_low : (expires_at now : ℕ) → negsuc 0 ≤ℤ ssl_warn_level expires_at now
unfolding ssl_warn_level
ssl_warn_level_low expires_at now = ground arith

ssl_level_low : (r : CheckResult) → negsuc 0 ≤ℤ ssl_level r
unfolding ssl_level
ssl_level_low r = elim (Option-cases r.cert_expires_at) [
  | inl e ↦ rw (e, ssl_level) (omega arith)
  | inr (t, e) ↦ rw (e, ssl_level) (ssl_warn_level_low t r.checked_at)
]

-- After the level -1 no warning follows on the incident.
warnings_silenced :
    (m : Monitor) (state : AlertState) (rs : List CheckResult)
    → is_ssl m.type ≡ true
    → is_some state.open_incident ≡ true
    → state.ssl_warned_days ≡ some (negsuc 0)
    → All Fails rs
    → warnings m state rs ≡ []
unfolding warnings apply
warnings_silenced m state [] s o w f = refl
warnings_silenced m state (r ∷ rs) s o w f =
    ground (arith, ssl_level_low r, warnings_silenced m (carry (apply m r state) state) rs s o)

-- A failed check that has no certificate, such as a connection error, sends one more warning of
-- level -1 on an open expiry incident, and silences it: no later failed check warns, whatever the
-- certificate does, not at three days, one day or expiry.
pub warnings-connection_error :
    (m : Monitor) (state : AlertState) (days : ℕ) (r : CheckResult) (rs : List CheckResult)
    → is_ssl m.type ≡ true
    → is_some state.open_incident ≡ true
    → state.ssl_warned_days ≡ some (pos days)
    → r.cert_expires_at ≡ none
    → Fails r
    → All Fails rs
    → warnings m state (r ∷ rs) ≡ negsuc 0 ∷ []
unfolding warnings apply ssl_level
warnings-connection_error m state days r rs s o w c fr f =
    ground (arith, warnings_silenced m (carry (apply m r state) state) rs s o)
