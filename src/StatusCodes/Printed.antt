-- ===== src/StatusCodes/Printed.antt =====
-- internal/checker/statuscodes.go: a spec that is written down from its entries is read back.
use pulse_pager.Prelude.{
  ℕ, ◌+◌, ◌-◌, ◌*◌, ◌%◌, ◌≤◌, ◌≡◌, refl, sym, ap, ◌∙◌, Bool, false, ◌&&◌, List, [], ◌∷◌, ◌++◌, map,
  reverse, ltb, leb, ◌==◌, any, All, arith, if◌then◌else◌, none, some, pos,
}
use mathlib.Core.List.{reverse-append, reverse-reverse}
use pulse_pager.StatusCodes.{
  Matcher, Parsed, Result, is_space, trim_left, trim_space, split_commas, atoi, parse_part,
  parse_form, to_lower, check_code, check_range, parse_status_codes, matches,
}
use pulse_pager.StatusCodes.Bounds.{
  stands_for, is_failure, entry_of, parts_of, parse_status_codes-ok_iff, parse_status_codes-matches,
}

-- A class of codes, such as 2xx, or one code, by its digits.
pub data Entry : Type 0 where
  hundreds : ℕ → Entry
  code : ℕ → ℕ → ℕ → Entry

-- The first digit is from 1 to 5, and the others are digits.
abbrev pub IsEntry : Entry → Type 0
IsEntry (hundreds d) = (1 ≤ d) × (d ≤ 5)
IsEntry (code a b c) = (1 ≤ a) × (a ≤ 5) × (b ≤ 9) × (c ≤ 9)

-- The text of an entry, without its last byte and with it.
abbrev stem : Entry → List ℕ
stem (hundreds d) = (b'0' + d) ∷ b'x' ∷ []
stem (code a b c) = (b'0' + a) ∷ (b'0' + b) ∷ []

abbrev last : Entry → ℕ
last (hundreds d) = b'x'
last (code a b c) = b'0' + c

abbrev pub text_of : Entry → List ℕ
text_of e = stem e ++ last e ∷ []

-- The entries, with a comma between two.
abbrev pub print : Entry → List Entry → List ℕ
print e [] = text_of e
print e (f ∷ es) = text_of e ++ b',' ∷ print f es

-- The codes of an entry.
abbrev pub covers : Entry → ℕ → Bool
covers (hundreds d) n = leb (100 * d) n && ltb n (100 * d + 100)
covers (code a b c) n = n == 100 * a + 10 * b + c

-- A text that has no space at its ends is left as it is.
trim_space-tight :
    (x : ℕ) (xs : List ℕ) (z : ℕ)
    → is_space x ≡ false
    → is_space z ≡ false
    → trim_space (x ∷ xs ++ z ∷ []) ≡ x ∷ xs ++ z ∷ []
trim_space-tight x xs z h k =
    ap (λ cs. reverse (trim_left (reverse cs))) (trim_left-tight x (xs ++ z ∷ []) h)
    ∙ ap (λ cs. reverse (trim_left cs)) (reverse-append (x ∷ xs) (z ∷ []))
    ∙ ap reverse (trim_left-tight z (reverse (x ∷ xs)) k)
    ∙ ap reverse (sym (reverse-append (x ∷ xs) (z ∷ [])))
    ∙ reverse-reverse (x ∷ xs ++ z ∷ [])
  where
    trim_left-tight : (c : ℕ) (cs : List ℕ) → is_space c ≡ false → trim_left (c ∷ cs) ≡ c ∷ cs
    trim_left-tight c cs e = rw e refl

split_commas-part :
    (xs rest : List ℕ)
    → All (λ c. (c == b',') ≡ false) xs
    → split_commas (xs ++ b',' ∷ rest) ≡ xs ∷ split_commas rest
split_commas-part [] rest h = refl
split_commas-part (x ∷ xs) rest h = ground (arith, h.0, split_commas-part xs rest h.1)

split_commas-last : (xs : List ℕ) → All (λ c. (c == b',') ≡ false) xs → split_commas xs ≡ xs ∷ []
split_commas-last [] h = refl
split_commas-last (x ∷ xs) h = ground (arith, h.0, split_commas-last xs h.1)

no_comma : (e : Entry) → IsEntry e → All (λ c. (c == b',') ≡ false) (text_of e)
no_comma (hundreds d) h = (ground arith, (refl, (refl, tt)))
no_comma (code a b c) h = (ground arith, (ground arith, (ground arith, tt)))

split_commas-print :
    (e : Entry) (es : List Entry)
    → IsEntry e
    → All IsEntry es
    → split_commas (print e es) ≡ map text_of (e ∷ es)
split_commas-print e [] h k = split_commas-last (text_of e) (no_comma e h)
split_commas-print e (f ∷ es) h k =
    split_commas-part (text_of e) (print f es) (no_comma e h)
    ∙ ap (λ ps. text_of e ∷ ps) (split_commas-print f es k.0 k.1)

-- What an entry parses to.
parsed : Entry → Parsed
parsed (hundreds d) = Parsed.range d
parsed (code a b c) = Parsed.explicit (100 * a + 10 * b + c)

to_lower-digit : (d : ℕ) → d ≤ 9 → to_lower (b'0' + d) ≡ b'0' + d
to_lower-digit d h = ground arith

check_range-digit : (d : ℕ) → IsEntry (hundreds d) → check_range (b'0' + d) ≡ Parsed.range d
unfolding check_range
check_range-digit d h =
    let wrapped : (b'0' + d + 256 - b'0') % 256 ≡ d = omega (arith, h) in rw wrapped (ground arith)

atoi-digits :
    (a b c : ℕ)
    → IsEntry (code a b c)
    → atoi (text_of (code a b c)) ≡ some (pos (100 * a + 10 * b + c))
atoi-digits a b c h = ground arith

parse_part-text_of : (e : Entry) → IsEntry e → parse_part (text_of e) ≡ parsed e
unfolding parse_part parsed
parse_part-text_of (hundreds d) h =
    ap check_range (to_lower-digit d (omega (arith, h))) ∙ check_range-digit d h
parse_part-text_of (code a b c) h =
    let not_x : (to_lower (b'0' + b) == b'x') ≡ false =
      ap (λ k. k == b'x') (to_lower-digit b h.2) ∙ ground arith in
    ap
      (λ x.
        parse_form (if x && to_lower (b'0' + c) == b'x' then some (to_lower (b'0' + a)) else none)
          (text_of (code a b c)))
      not_x
    ∙ ap check_code (atoi-digits a b c h)
    ∙ ground arith

-- Each printed entry is read back as itself.
entry_of-text_of : (e : Entry) → IsEntry e → entry_of (text_of e) ≡ parsed e
entry_of-text_of (hundreds d) h =
    ap parse_part (trim_space-tight (b'0' + d) (b'x' ∷ []) b'x' (ground arith) refl)
    ∙ parse_part-text_of (hundreds d) h
entry_of-text_of (code a b c) h =
    ap parse_part
      (trim_space-tight (b'0' + a) ((b'0' + b) ∷ []) (b'0' + c) (ground arith) (ground arith))
    ∙ parse_part-text_of (code a b c) h

stands_for-covers :
    (e : Entry) (n : ℕ) → IsEntry e → stands_for (entry_of (text_of e)) n ≡ covers e n
unfolding parsed
stands_for-covers (hundreds d) n h =
    ap (λ x. stands_for x n) (entry_of-text_of (hundreds d) h) ∙ ground arith
stands_for-covers (code a b c) n h =
    ap (λ x. stands_for x n) (entry_of-text_of (code a b c) h) ∙ ground arith

is_failure-text_of : (e : Entry) → IsEntry e → is_failure (entry_of (text_of e)) ≡ false
unfolding parsed
is_failure-text_of (hundreds d) h = ap is_failure (entry_of-text_of (hundreds d) h)
is_failure-text_of (code a b c) h = ap is_failure (entry_of-text_of (code a b c) h)

all-read :
    (es : List Entry)
    → All IsEntry es
    → any (λ raw. is_failure (entry_of raw)) (map text_of es) ≡ false
all-read [] h = refl
all-read (e ∷ es) h = ground (arith, is_failure-text_of e h.0, all-read es h.1)

any-covers :
    (es : List Entry) (n : ℕ)
    → All IsEntry es
    → any (λ raw. stands_for (entry_of raw) n) (map text_of es) ≡ any (λ e. covers e n) es
any-covers [] n h = refl
any-covers (e ∷ es) n h = ground (arith, stands_for-covers e n h.0, any-covers es n h.1)

-- The printed entries begin with a digit and end with a digit or an x.
print-tight :
    (e : Entry) (es : List Entry)
    → IsEntry e
    → All IsEntry es
    → trim_space (print e es) ≡ print e es
print-tight e es h k =
    let (x, xs, z, its, start, end) = ends e es h k in
    ap trim_space its ∙ trim_space-tight x xs z start end ∙ sym its
  where
    ends :
        (e : Entry) (es : List Entry)
        → IsEntry e
        → All IsEntry es
        → (x : ℕ) × (xs : List ℕ) × (z : ℕ) × (print e es ≡ x ∷ xs ++ z ∷ [])
          × (is_space x ≡ false)
          × (is_space z ≡ false)
    ends (hundreds d) [] h k = (b'0' + d, b'x' ∷ [], b'x', refl, ground arith, refl)
    ends (code a b c) [] h k =
        (b'0' + a, (b'0' + b) ∷ [], b'0' + c, refl, ground arith, ground arith)
    ends (hundreds d) (f ∷ es) h k =
        let (x, xs, z, its, start, end) = ends f es k.0 k.1 in
        (
          b'0' + d,
          b'x' ∷ b'x' ∷ b',' ∷ x ∷ xs,
          z,
          ap (λ rest. text_of (hundreds d) ++ b',' ∷ rest) its,
          ground arith,
          end,
        )
    ends (code a b c) (f ∷ es) h k =
        let (x, xs, z, its, start, end) = ends f es k.0 k.1 in
        (
          b'0' + a,
          (b'0' + b) ∷ (b'0' + c) ∷ b',' ∷ x ∷ xs,
          z,
          ap (λ rest. text_of (code a b c) ++ b',' ∷ rest) its,
          ground arith,
          end,
        )

-- A spec that is written down from classes of codes, such as 2xx, and codes of three digits, none of
-- them beyond 599, with commas between them, parses, and its matcher matches a code exactly if one
-- of the classes holds it or it is one of the codes.
pub parse_status_codes-print :
    (e : Entry) (es : List Entry)
    → IsEntry e
    → All IsEntry es
    → (m : Matcher) × (parse_status_codes (print e es) ≡ Result.ok m)
      × ((n : ℕ) → matches m n ≡ any (λ x. covers x n) (e ∷ es))
parse_status_codes-print e es h k =
    let parts : parts_of (print e es) ≡ map text_of (e ∷ es) =
      ap split_commas (print-tight e es h k) ∙ split_commas-print e es h k in
    let (m, parses) =
      (parse_status_codes-ok_iff (print e es)).1
        (ap (any (λ raw. is_failure (entry_of raw))) parts ∙ all-read (e ∷ es) (h, k)) in
    (
      m,
      parses,
      λ n.
          parse_status_codes-matches (print e es) m n parses
          ∙ ap (any (λ raw. stands_for (entry_of raw) n)) parts
          ∙ any-covers (e ∷ es) n (h, k),
    )
