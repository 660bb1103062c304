-- ===== src/Checkstate/Rollup.antt =====
-- internal/checkstate/checkstate.go, Rollup and TTLFor: what the frontend is shown.
use pulse_pager.Prelude.{
  ℕ, ◌+◌, ◌*◌, ◌≤◌, ◌<◌, ◌≡◌, ◌≢◌, ◌↔◌, refl, ◌∙◌, Bool, true, false, ◌&&◌, none, some, List, [],
  ◌∷◌, length, count_where, arith, map, max,
}
use pulse_pager.Domain.{DownPolicy, second, hour, Time}
use pulse_pager.Checkstate.{
  ChipState, RegionState, Outcome, ttl_for, mark_result, Phase, Counts, tally, tally_all,
  reduce_healthy, phase_of, rollup,
}

-- The state outlives the gap between two checks three times over, and an hour at least, and no
-- more than the longer of these.
pub ttl_for-max :
    (interval_seconds : ℕ) → ttl_for interval_seconds ≡ max (interval_seconds * 3 * second) hour
unfolding ttl_for
ttl_for-max interval_seconds = ground arith

-- Is a region's check over?
abbrev pub is_over : RegionState → Bool
is_over rs = elim rs.state [ ChipState.done ↦ true | ChipState.failed ↦ true | _ ↦ false ]

-- Is it yet to begin?
abbrev pub is_waiting : RegionState → Bool
is_waiting rs = elim rs.state [ ChipState.scheduled ↦ true | _ ↦ false ]

-- Is it over, and did it find the target healthy?
abbrev pub is_healthy : RegionState → Bool
is_healthy rs = is_over rs && elim rs.healthy [ some b ↦ b | none ↦ false ]

tally_all-counts :
    (regions : List RegionState) (c : Counts)
    → ((tally_all regions c).total ≡ c.total + length regions)
      × ((tally_all regions c).terminal ≡ c.terminal + count_where is_over regions)
      × ((tally_all regions c).waiting ≡ c.waiting + count_where is_waiting regions)
      × ((tally_all regions c).up ≡ c.up + count_where is_healthy regions)
unfolding tally_all tally count_where
tally_all-counts [] c = ground arith
tally_all-counts (rs ∷ rest) c = ground (arith, tally_all-counts rest (tally rs c))

zero_counts : Counts
zero_counts = record { total = 0; terminal = 0; waiting = 0; up = 0 }

phase_of-counts :
    (policy : DownPolicy) (c : Counts) (total over waiting up : ℕ)
    → c.total ≡ total
    → c.terminal ≡ over
    → c.waiting ≡ waiting
    → c.up ≡ up
    → phase_of c policy
      ≡ phase_of (record { total = total; terminal = over; waiting = waiting; up = up }) policy
unfolding phase_of
phase_of-counts policy c total over waiting up e f g h = rw (e, f, g, h) refl

counted : List RegionState → Counts
counted regions = record {
  total = length regions;
  terminal = count_where is_over regions;
  waiting = count_where is_waiting regions;
  up = count_where is_healthy regions;
}

rollup_lem :
    (r : RegionState) (rest : List RegionState) (policy : DownPolicy)
    → rollup (r ∷ rest) policy ≡ phase_of (counted (r ∷ rest)) policy
unfolding rollup zero_counts counted
rollup_lem r rest policy =
    let t = tally_all-counts (r ∷ rest) zero_counts in
    let c = counted (r ∷ rest) in
    phase_of-counts policy _ c.total c.terminal c.waiting c.up (t.0 ∙ omega arith)
      (t.1 ∙ omega arith) (t.2 ∙ omega arith) (t.3 ∙ omega arith)

one_state : (rs : RegionState) → is_over rs ≡ true → is_waiting rs ≡ false
one_state rs e = ground arith

over-waiting :
    (regions : List RegionState)
    → count_where is_over regions + count_where is_waiting regions ≤ length regions
unfolding count_where
over-waiting [] = omega arith
over-waiting (rs ∷ rest) = ground (arith, over-waiting rest, one_state rs)

phases :
    (policy : DownPolicy) (c : Counts)
    → 0 < c.total
    → c.terminal + c.waiting ≤ c.total
    → (((phase_of c policy).0 ≡ Phase.complete) ↔ ((0 < c.total) × (c.terminal ≡ c.total)))
      × (((phase_of c policy).0 ≡ Phase.pending) ↔ (c.waiting ≡ c.total))
      × (((phase_of c policy).1 ≡ none) ↔ ((phase_of c policy).0 ≢ Phase.complete))
unfolding phase_of
phases policy c h k = ground arith

-- A monitor is complete exactly when it has a region and all of them are over, pending exactly when
-- all of them wait (or there is none), and has a verdict exactly when it is complete.
pub rollup-phase_iff :
    (regions : List RegionState) (policy : DownPolicy)
    → (((rollup regions policy).0 ≡ Phase.complete)
        ↔ ((0 < length regions) × (count_where is_over regions ≡ length regions)))
      × (((rollup regions policy).0 ≡ Phase.pending)
          ↔ (count_where is_waiting regions ≡ length regions))
      × (((rollup regions policy).1 ≡ none) ↔ ((rollup regions policy).0 ≢ Phase.complete))
unfolding rollup count_where counted
rollup-phase_iff [] policy = ground arith
rollup-phase_iff (r ∷ rest) policy =
    rw (rollup_lem r rest policy)
      (phases policy (counted (r ∷ rest)) (omega arith) (over-waiting (r ∷ rest)))

-- How many healthy regions a policy wants.
abbrev pub Suffices : DownPolicy → ℕ → ℕ → Type 0
Suffices DownPolicy.any up total = up ≡ total
Suffices DownPolicy.quorum up total = total ≤ 2 * up
Suffices DownPolicy.all up total = 1 ≤ up

phase_over :
    (total waiting up : ℕ) (policy : DownPolicy)
    → phase_of (record { total = total; terminal = total; waiting = waiting; up = up }) policy
      ≡ (Phase.complete, some (reduce_healthy up total policy))
unfolding phase_of
phase_over total waiting up policy = ground arith

reduce_healthy_lem :
    (up total : ℕ) (policy : DownPolicy)
    → 0 < total
    → up ≤ total
    → (reduce_healthy up total policy ≡ true) ↔ Suffices policy up total
unfolding reduce_healthy
reduce_healthy_lem up total policy h k = ground arith

count_where-length {ℓ} : {A : Type ℓ} (p : A → Bool) (xs : List A) → count_where p xs ≤ length xs
unfolding count_where
count_where-length p [] = omega arith
count_where-length p (x ∷ xs) = ground (arith, count_where-length p xs)

-- What a report at a time leaves in the live state of its region.
abbrev pub Report : Type 0
Report = Outcome × Time

abbrev pub reported : Report → RegionState
reported (o, at) = mark_result o at

abbrev pub is_pass : Report → Bool
is_pass (o, at) = o.was_healthy

marked-counts :
    (os : List Report)
    → (length (map reported os) ≡ length os)
      × (count_where is_over (map reported os) ≡ length os)
      × (count_where is_healthy (map reported os) ≡ count_where is_pass os)
unfolding count_where mark_result
marked-counts [] = ground arith
marked-counts ((o, at) ∷ os) = ground (arith, marked-counts os)

-- Once each region in the live state holds what a report has written to it, each at its own time,
-- the monitor is complete, and it is healthy exactly when the healthy reports suffice for its
-- policy: all of them, half of them, or one.
pub rollup-outcomes_iff :
    (o : Report) (rest : List Report) (policy : DownPolicy)
    → (v : Bool) × (rollup (map reported (o ∷ rest)) policy ≡ (Phase.complete, some v))
      × ((v ≡ true) ↔ Suffices policy (count_where is_pass (o ∷ rest)) (length (o ∷ rest)))
unfolding counted
rollup-outcomes_iff o rest policy =
    let os = o ∷ rest in
    let up = count_where is_pass os in
    let regions = map reported os in
    let marked = marked-counts os in
    (
      reduce_healthy up (length os) policy,
      rollup_lem (reported o) (map reported rest) policy
          ∙ phase_of-counts policy (counted regions) (length os) (length os)
              (count_where is_waiting regions) up marked.0 marked.1 refl marked.2
          ∙ phase_over (length os) (count_where is_waiting regions) up policy,
      reduce_healthy_lem up (length os) policy (omega arith) (count_where-length is_pass os),
    )
