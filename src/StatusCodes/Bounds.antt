-- ===== src/StatusCodes/Bounds.antt =====
-- internal/checker/statuscodes.go: what a spec that parses matches.
use pulse_pager.Prelude.{
  ℕ, ◌+◌, ◌-◌, ◌/◌, ◌%◌, ◌≤◌, ◌≡◌, ◌↔◌, ◌⊎◌, inl, inr, refl, sym, ◌∙◌, ap, Bool, true, false, ◌||◌,
  Option, none, some, List, [], ◌∷◌, ℤ, pos, negsuc, ltb, ◌==◌, any, arith, Bool-cases,
}
use pulse_pager.StatusCodes.{
  Error, Parsed, Matcher, Result, matches, check_code, check_range, parse_form, shorthand,
  parse_part, add_part, parse_parts, parse_trimmed, parse_status_codes, trim_space, split_commas,
  atoi,
}

-- An entry of a spec that is no error stands for a code of three digits or a hundred of them.
abbrev pub IsEntry : Parsed → Type 0
IsEntry (Parsed.fail e) = Unit
IsEntry (Parsed.explicit code) = (100 ≤ code) × (code ≤ 599)
IsEntry (Parsed.range d) = (1 ≤ d) × (d ≤ 5)

check_code-IsEntry : (v : Option ℤ) → IsEntry (check_code v)
unfolding check_code
check_code-IsEntry none = tt
check_code-IsEntry (some (negsuc n)) = tt
check_code-IsEntry (some (pos code)) = elim (Bool-cases (ltb code 100 || ltb 599 code)) [
  | inl e ↦ rw e tt
  | inr e ↦ rw e (ground arith)
]

check_range-IsEntry : (c : ℕ) → IsEntry (check_range c)
unfolding check_range
check_range-IsEntry c =
    let d = (c + 256 - b'0') % 256 in
    elim (Bool-cases (ltb d 1 || ltb 5 d)) [ inl e ↦ rw e tt | inr e ↦ rw e (ground arith) ]

parse_part-IsEntry : (part : List ℕ) → IsEntry (parse_part part)
unfolding parse_part
parse_part-IsEntry [] = tt
parse_part-IsEntry (c ∷ cs) = go (shorthand (c ∷ cs))
  where
    go : (form : Option ℕ) → IsEntry (parse_form form (c ∷ cs))
    go none = check_code-IsEntry (atoi (c ∷ cs))
    go (some l) = check_range-IsEntry l

-- Does an entry stand for the code?
abbrev pub stands_for : Parsed → ℕ → Bool
stands_for (Parsed.fail e) code = false
stands_for (Parsed.explicit k) code = k == code
stands_for (Parsed.range d) code = d == code / 100

abbrev pub is_failure : Parsed → Bool
is_failure (Parsed.fail e) = true
is_failure _ = false

-- The entries of a spec.
abbrev pub entry_of : List ℕ → Parsed
entry_of raw = parse_part (trim_space raw)

add_part-matches :
    (p : Parsed) (m : Matcher)
    → (is_failure p ≡ true × (e : Error) × (add_part p m ≡ Result.err e))
      ⊎ ((is_failure p ≡ false)
          × ((m' : Matcher) × (add_part p m ≡ Result.ok m')
              × ((code : ℕ) → (matches m' code) ≡ (stands_for p code || matches m code))))
unfolding add_part matches
add_part-matches (Parsed.fail e) m = inl (refl, e, refl)
add_part-matches (Parsed.explicit k) m = inr (refl, (_, refl, λ code. ground arith))
add_part-matches (Parsed.range d) m = inr (refl, (_, refl, λ code. ground arith))

-- The matcher of a result.
matcher_or : Matcher → Result → Matcher
matcher_or m (Result.err e) = m
matcher_or m (Result.ok m') = m'

parse_parts-matches :
    (raws : List (List ℕ)) (m m' : Matcher) (code : ℕ)
    → parse_parts raws m ≡ Result.ok m'
    → (any (λ raw. is_failure (entry_of raw)) raws ≡ false)
      × (matches m' code ≡ (any (λ raw. stands_for (entry_of raw) code) raws || matches m code))
unfolding parse_parts matcher_or
parse_parts-matches [] m m' code e = (refl, ap (λ k. matches (matcher_or m k) code) (sym e))
parse_parts-matches (raw ∷ raws) m m' code e = elim (add_part-matches (entry_of raw) m) [
  | inl (failed, err, r) ↦ absurd (ground (arith, rw (r, parse_parts) at e))
  | inr (fine, (m1, r, same)) ↦
      let rest = parse_parts-matches raws m1 m' code (rw (r, parse_parts) at e) in
      (rw fine rest.0, rest.1 ∙ ground (arith, same code))
]

parse_parts-succeeds :
    (raws : List (List ℕ)) (m : Matcher)
    → any (λ raw. is_failure (entry_of raw)) raws ≡ false
    → (m' : Matcher) × (parse_parts raws m ≡ Result.ok m')
unfolding parse_parts
parse_parts-succeeds [] m h = (m, refl)
parse_parts-succeeds (raw ∷ raws) m h = elim (add_part-matches (entry_of raw) m) [
  | inl (failed, err, r) ↦ absurd (ground arith)
  | inr (fine, (m1, r, same)) ↦ rw (r, parse_parts) (parse_parts-succeeds raws m1 (rw fine at h))
]

-- The parts of a spec.
abbrev pub parts_of : List ℕ → List (List ℕ)
parts_of spec = split_commas (trim_space spec)

no_codes : Matcher
no_codes = record { explicit_codes = []; ranges = [] }

blank-fails : any (λ raw. is_failure (entry_of raw)) (split_commas []) ≡ true
unfolding parse_part
blank-fails = refl

not_both : {A : Type 0} (b : Bool) → b ≡ true → b ≡ false → A
not_both b e f = absurd (ground arith)

err-ne-ok : {A : Type 0} (e : Error) (m : Matcher) → Result.err e ≡ Result.ok m → A
err-ne-ok e m h = absurd (ground arith)

-- A spec parses exactly when none of its parts is an error; a blank spec has one part, which is.
pub parse_status_codes-ok_iff :
    (spec : List ℕ)
    → ((m : Matcher) × (parse_status_codes spec ≡ Result.ok m))
      ↔ (any (λ raw. is_failure (entry_of raw)) (parts_of spec) ≡ false)
unfolding parse_status_codes no_codes parse_trimmed
parse_status_codes-ok_iff spec = go (trim_space spec)
  where
    go :
        (cs : List ℕ)
        → ((m : Matcher) × (parse_trimmed cs ≡ Result.ok m))
          ↔ (any (λ raw. is_failure (entry_of raw)) (split_commas cs) ≡ false)
    go [] = (λ h. err-ne-ok _ h.0 h.1, λ h. not_both _ blank-fails h)
    go (c ∷ cs) = (
      λ h. (parse_parts-matches (split_commas (c ∷ cs)) no_codes h.0 0 h.1).0,
      parse_parts-succeeds (split_commas (c ∷ cs)) no_codes,
    )

-- A matcher that a spec parses to matches a code exactly when one of the parts stands for it.
pub parse_status_codes-matches :
    (spec : List ℕ) (m : Matcher) (code : ℕ)
    → parse_status_codes spec ≡ Result.ok m
    → matches m code ≡ any (λ raw. stands_for (entry_of raw) code) (parts_of spec)
unfolding parse_status_codes no_codes parse_trimmed matches
parse_status_codes-matches spec m code = go (trim_space spec)
  where
    go :
        (cs : List ℕ)
        → parse_trimmed cs ≡ Result.ok m
        → matches m code ≡ any (λ raw. stands_for (entry_of raw) code) (split_commas cs)
    go [] h = err-ne-ok _ m h
    go (c ∷ cs) h =
        (parse_parts-matches (split_commas (c ∷ cs)) no_codes m code h).1
        ∙ ground (arith, any (λ raw. stands_for (entry_of raw) code) (split_commas (c ∷ cs)))

stands_for-bounds :
    (p : Parsed) (code : ℕ) → IsEntry p → stands_for p code ≡ true → (100 ≤ code) × (code ≤ 599)
stands_for-bounds (Parsed.fail e) code h k = absurd (ground arith)
stands_for-bounds (Parsed.explicit n) code h k = ground arith
stands_for-bounds (Parsed.range d) code h k = ground arith

-- Whatever spec it was parsed from, a matcher matches codes from 100 to 599 only.
pub parse_status_codes-bounds :
    (spec : List ℕ) (m : Matcher) (code : ℕ)
    → parse_status_codes spec ≡ Result.ok m
    → matches m code ≡ true
    → (100 ≤ code) × (code ≤ 599)
parse_status_codes-bounds spec m code e h =
    go (parts_of spec) (sym (parse_status_codes-matches spec m code e) ∙ h)
  where
    go :
        (raws : List (List ℕ))
        → any (λ raw. stands_for (entry_of raw) code) raws ≡ true
        → (100 ≤ code) × (code ≤ 599)
    go [] k = absurd (ground arith)
    go (raw ∷ raws) k = elim (Bool-cases (stands_for (entry_of raw) code)) [
      | inl here ↦ stands_for-bounds (entry_of raw) code (parse_part-IsEntry (trim_space raw)) here
      | inr later ↦ go raws (rw later at k)
    ]
