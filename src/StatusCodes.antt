-- ===== src/StatusCodes.antt =====
-- internal/checker/statuscodes.go: the parser of expected_status_codes. A spec is the list of its
-- bytes and is taken to be ASCII, of which TrimSpace and ToLower are written out. The two maps of a
-- matcher are the lists of their keys, and an error keeps its kind, not its text. A code is what an
-- HTTP response carries, so it is not negative.
pub mod Bounds
pub mod Printed
use pulse_pager.Prelude.{
  ℕ, zero, suc, ◌+◌, ◌-◌, ◌*◌, ◌/◌, ◌%◌, Bool, true, false, ◌&&◌, ◌||◌, Option, none, some, List,
  [], ◌∷◌, reverse, ℤ, pos, negsuc, ltb, leb, ◌==◌, if◌then◌else◌, any,
}

pub data Error : Type 0 where
  empty_spec empty_entry invalid_range invalid_code out_of_range : Error

pub data Parsed : Type 0 where
  fail : Error → Parsed
  explicit range : ℕ → Parsed

-- statusMatcher
pub record Matcher : Type 0 where
  pub explicit_codes : List ℕ
  pub ranges : List ℕ

abbrev has : List ℕ → ℕ → Bool
has ks k = any (λ k'. k' == k) ks

unfoldable pub matches : Matcher → ℕ → Bool
matches m code = has m.explicit_codes code || has m.ranges (code / 100)

-- unicode.IsSpace, of an ASCII byte: tab to carriage return, and the blank.
abbrev pub is_space : ℕ → Bool
is_space c = (leb 9 c && leb c 13) || c == b' '

abbrev pub trim_left : List ℕ → List ℕ
trim_left [] = []
trim_left (c ∷ cs) = let rest = trim_left cs in if is_space c then rest else c ∷ cs

-- strings.TrimSpace
abbrev pub trim_space : List ℕ → List ℕ
trim_space cs = reverse (trim_left (reverse (trim_left cs)))

abbrev add_front : ℕ → List (List ℕ) → List (List ℕ)
add_front c [] = (c ∷ []) ∷ []
add_front c (p ∷ ps) = (c ∷ p) ∷ ps

-- strings.Split(s, ",")
abbrev pub split_commas : List ℕ → List (List ℕ)
split_commas [] = [] ∷ []
split_commas (c ∷ cs) =
    let rest = split_commas cs in if c == b',' then [] ∷ rest else add_front c rest

-- unicode.ToLower, of an ASCII byte
abbrev pub to_lower : ℕ → ℕ
to_lower c = if leb b'A' c && leb c b'Z' then c + 32 else c

abbrev max_int : ℕ
max_int = 9_223_372_036_854_775_807

abbrev read_digits : ℕ → List ℕ → Option ℕ
read_digits seen [] = some seen
read_digits seen (c ∷ cs) =
    let rest = read_digits (10 * seen + (c - b'0')) cs in
    if leb b'0' c && leb c b'9' then rest else none

abbrev digits_value : List ℕ → Option ℕ
digits_value [] = none
digits_value (c ∷ cs) = read_digits 0 (c ∷ cs)

abbrev signed : Bool → ℕ → Option ℤ
signed false n = if leb n max_int then some (pos n) else none
signed true zero = some (pos 0)
signed true (suc n) = if leb n max_int then some (negsuc n) else none

abbrev with_sign : Bool → Option ℕ → Option ℤ
with_sign negative none = none
with_sign negative (some n) = signed negative n

-- strconv.Atoi: a sign or none, then digits, with a value that fits an int64.
abbrev pub atoi : List ℕ → Option ℤ
atoi [] = none
atoi (c ∷ cs) =
    if c == b'-'
    then with_sign true (digits_value cs)
    else if c == b'+'
    then with_sign false (digits_value cs)
    else with_sign false (digits_value (c ∷ cs))

-- The range check of an explicit code.
unfoldable pub check_code : Option ℤ → Parsed
check_code none = fail invalid_code
check_code (some (negsuc n)) = fail out_of_range
check_code (some (pos code)) =
    if ltb code 100 || ltb 599 code then fail out_of_range else explicit code

-- int(lower[0] - '0'), a difference of bytes, which wraps.
unfoldable pub check_range : ℕ → Parsed
check_range c =
    let d = (c + 256 - b'0') % 256 in if ltb d 1 || ltb 5 d then fail invalid_range else range d

-- The shorthand's leading byte, if the entry has that form.
abbrev pub shorthand : List ℕ → Option ℕ
shorthand (c ∷ (x ∷ (y ∷ []))) =
    if to_lower x == b'x' && to_lower y == b'x' then some (to_lower c) else none
shorthand _ = none

abbrev parse_form : Option ℕ → List ℕ → Parsed
parse_form (some c) part = check_range c
parse_form none part = check_code (atoi part)

-- One round of the loop, on a part that is trimmed.
unfoldable pub parse_part : List ℕ → Parsed
unfolding check_code check_range
parse_part [] = fail empty_entry
parse_part (c ∷ cs) = parse_form (shorthand (c ∷ cs)) (c ∷ cs)

pub data Result : Type 0 where
  err : Error → Result
  ok : Matcher → Result

-- What a round does to the matcher.
unfoldable pub add_part : Parsed → Matcher → Result
add_part (fail e) m = err e
add_part (explicit code) m = ok (record m { explicit_codes = code ∷ m.explicit_codes })
add_part (range d) m = ok (record m { ranges = d ∷ m.ranges })

-- The loop.
unfoldable pub parse_parts : List (List ℕ) → Matcher → Result
unfolding add_part
parse_parts [] m = ok m
parse_parts (raw ∷ raws) m = elim (add_part (parse_part (trim_space raw)) m) [
  | err e ↦ err e
  | ok m' ↦ parse_parts raws m'
]

unfoldable pub parse_trimmed : List ℕ → Result
unfolding parse_parts
parse_trimmed [] = err empty_spec
parse_trimmed (c ∷ cs) =
    parse_parts (split_commas (c ∷ cs)) (record { explicit_codes = []; ranges = [] })

unfoldable pub parse_status_codes : List ℕ → Result
unfolding parse_trimmed
parse_status_codes spec = parse_trimmed (trim_space spec)
