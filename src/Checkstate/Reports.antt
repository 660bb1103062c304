-- ===== src/Checkstate/Reports.antt =====
-- internal/checkstate/checkstate.go: the live state once all its regions have reported.
use pulse_pager.Prelude.{
  ◌≤◌, ◌≡◌, ◌≢◌, ◌⊎◌, inl, inr, refl, ap, Bool, true, false, List, [], ◌∷◌, String, str_eq, map,
  any, All, length, count_where, arith, Bool-cases, if◌then◌else◌, ◌++◌, update_where, none, suc,
}
use pulse_pager.Domain.{DownPolicy, Time}
use pulse_pager.Checkstate.{
  RegionState, Outcome, Phase, Hash, ChipState, of_region, mark_result, write_region, rollup,
}
use pulse_pager.Checkstate.Rollup.{is_over, rollup-phase_iff}

-- What a region reports, and when.
abbrev pub RegionReport : Type 0
RegionReport = String × Outcome × Time

-- SetResult, once for each report
abbrev pub set_results : List RegionReport → Hash → Hash
set_results [] h = h
set_results ((region, o, at) ∷ rs) h = set_results rs (write_region region (mark_result o at) h)

abbrev pub reports : String → List RegionReport → Bool
reports region rs = any (λ r. str_eq region r.0) rs

-- The region's check is over, or its report is among those to come.
abbrev pub Settles : List RegionReport → String × RegionState → Type 0
Settles rs e = (is_over e.1 ≡ true) ⊎ (reports e.0 rs ≡ true)

marked-over : (o : Outcome) (at : Time) → is_over (mark_result o at) ≡ true
unfolding mark_result
marked-over o at = by_case o.was_healthy
  where
    by_case :
        (b : Bool)
        → is_over
            (record (mark_result o at) { state = if b then ChipState.done else ChipState.failed })
          ≡ true
    by_case true = refl
    by_case false = refl

module _ (region : String) (o : Outcome) (at : Time) (rs : List RegionReport) where
  narrowed :
      (e : String × RegionState)
      → Settles ((region, o, at) ∷ rs) e
      → of_region region e ≡ false
      → Settles rs e
  narrowed e (inl over) other = inl over
  narrowed e (inr listed) other = inr (ground (arith, listed, other))

  update-Settles :
      (h : Hash)
      → All (Settles ((region, o, at) ∷ rs)) h
      → All (Settles rs) (update_where (of_region region) (λ e. (e.0, mark_result o at)) h)
  unfolding update_where
  update-Settles [] s = tt
  update-Settles (e ∷ h) s = elim (Bool-cases (of_region region e)) [
    | inl same ↦ rw same (inl (marked-over o at), update-Settles h s.1)
    | inr other ↦ rw other (narrowed e s.0 other, update-Settles h s.1)
  ]

  append-Settles :
      (h : Hash)
      → All (Settles ((region, o, at) ∷ rs)) h
      → any (of_region region) h ≡ false
      → All (Settles rs) (h ++ (region, mark_result o at) ∷ [])
  append-Settles [] s new = (inl (marked-over o at), tt)
  append-Settles (e ∷ h) s new =
      (narrowed e s.0 (ground (arith, new)), append-Settles h s.1 (ground (arith, new)))

  write_region-Settles :
      (h : Hash)
      → All (Settles ((region, o, at) ∷ rs)) h
      → All (Settles rs) (write_region region (mark_result o at) h)
        × (1 ≤ length (write_region region (mark_result o at) h))
  unfolding write_region update_where
  write_region-Settles h s = elim (Bool-cases (any (of_region region) h)) [
    | inl there ↦ rw there (update-Settles h s, some_kept h there)
    | inr new ↦ rw new (append-Settles h s new, some_added h)
  ]
    where
      some_kept :
          (h : Hash)
          → any (of_region region) h ≡ true
          → 1 ≤ length (update_where (of_region region) (λ e. (e.0, mark_result o at)) h)
      some_kept [] there = absurd (ground (arith, there))
      some_kept (e ∷ h) there = ground arith

      some_added : (h : Hash) → 1 ≤ length (h ++ (region, mark_result o at) ∷ [])
      some_added [] = omega arith
      some_added (e ∷ h) = omega arith

all-over :
    (h : Hash)
    → All (Settles []) h
    → count_where is_over (map (λ e. e.1) h) ≡ length (map (λ (e : String × RegionState). e.1) h)
unfolding count_where
all-over [] s = refl
all-over (e ∷ h) s = ground (arith, s.0, all-over h s.1)

set_results-Settles :
    (rs : List RegionReport) (h : Hash)
    → All (Settles rs) h
    → 1 ≤ length h
    → All (Settles []) (set_results rs h) × (1 ≤ length (set_results rs h))
set_results-Settles [] h s some_region = (s, some_region)
set_results-Settles ((region, o, at) ∷ rs) h s some_region =
    let (settled, kept) = write_region-Settles region o at rs h s in
    set_results-Settles rs (write_region region (mark_result o at) h) settled kept

length-states : (h : Hash) → length (map (λ (e : String × RegionState). e.1) h) ≡ length h
length-states [] = refl
length-states (e ∷ h) = ap suc (length-states h)

-- Whatever the live state of a monitor was, if it has a region, and each of its regions that is not
-- over is among those that report, then after the reports, in any order and also of other regions,
-- the monitor is complete and has a verdict.
pub set_results-complete :
    (rs : List RegionReport) (h : Hash) (policy : DownPolicy)
    → 1 ≤ length h
    → All (Settles rs) h
    → let shown = rollup (map (λ e. e.1) (set_results rs h)) policy in
      (shown.0 ≡ Phase.complete) × (shown.1 ≢ none)
set_results-complete rs h policy some_region listed =
    let (settled, kept) = set_results-Settles rs h listed some_region in
    let (complete, pending, verdict) =
      rollup-phase_iff (map (λ e. e.1) (set_results rs h)) policy in
    let over = complete.1 (
      omega (arith, length-states (set_results rs h), kept),
      all-over (set_results rs h) settled,
    ) in
    (over, λ e. (verdict.0 e) over)
