-- ===== src/Prelude/Decimal.antt =====
-- strconv.FormatInt and strconv.Itoa in base ten, as lists of bytes.
use Prim.Native.Nat.{ℕ, zero, suc, ◌+◌, ◌-◌, ◌*◌, ◌/◌, ◌%◌, ◌≤◌, ◌<◌}
use mathlib.Core.Path.{◌≡◌, ap, sym, ◌∙◌}
use mathlib.Core.Logic.{inl, inr, ◌≢◌}
use mathlib.Core.List.{List, [], ◌∷◌, ◌++◌}
use Prim.Native.String.{String}
use Prim.Native.Char.{code}
use native.Mathlib.Omega.{arith}
use pulse_pager.Prelude.Tests.{ltb, if◌then◌else◌, Bool-cases}
use pulse_pager.Prelude.Int.{ℤ, pos, negsuc}
use pulse_pager.Prelude.Lists.{All}

-- One digit a round, the last one first; n rounds are enough for n.
digits : ℕ → ℕ → List ℕ → List ℕ
digits zero n acc = acc
digits (suc fuel) n acc =
    let rest = digits fuel (n / 10) ((b'0' + n % 10) ∷ acc) in
    if ltb n 10 then (b'0' + n) ∷ acc else rest

unfoldable pub format_int : ℕ → List ℕ
unfolding digits
format_int n = digits (suc n) n []

unfoldable pub format_signed : ℤ → List ℕ
format_signed (pos n) = format_int n
format_signed (negsuc n) = b'-' ∷ format_int (suc n)

-- The number that a list of digits stands for, read after `seen`.
read : ℕ → List ℕ → ℕ
read seen [] = seen
read seen (c ∷ cs) = read (10 * seen + (c - b'0')) cs

read-digits : (fuel n : ℕ) (acc : List ℕ) → n < fuel → read 0 (digits fuel n acc) ≡ read n acc
unfolding digits read
read-digits zero n acc h = absurd (omega arith)
read-digits (suc fuel) n acc h = elim (Bool-cases (ltb n 10)) [
  | inl small ↦ rw small (ap (λ k. read k acc) (omega arith))
  | inr big ↦ rw big (
      read-digits fuel (n / 10) ((b'0' + n % 10) ∷ acc) (ground arith)
      ∙ ap (λ k. read k acc) (omega arith))
]

read-format_int : (n : ℕ) → read 0 (format_int n) ≡ n
unfolding format_int read
read-format_int n = read-digits (suc n) n [] (omega arith)

pub format_int-injective : (a b : ℕ) → format_int a ≡ format_int b → a ≡ b
format_int-injective a b h = sym (read-format_int a) ∙ ap (read 0) h ∙ read-format_int b

abbrev pub IsDigit : ℕ → Type 0
IsDigit c = (b'0' ≤ c) × (c ≤ b'9')

digits-IsDigit : (fuel n : ℕ) (acc : List ℕ) → All IsDigit acc → All IsDigit (digits fuel n acc)
unfolding digits
digits-IsDigit zero n acc h = h
digits-IsDigit (suc fuel) n acc h = elim (Bool-cases (ltb n 10)) [
  | inl small ↦ rw small ((omega arith, ground arith), h)
  | inr big ↦
      rw big (digits-IsDigit fuel (n / 10) ((b'0' + n % 10) ∷ acc) ((omega arith, omega arith), h))
]

pub format_int-IsDigit : (n : ℕ) → All IsDigit (format_int n)
unfolding format_int
format_int-IsDigit n = digits-IsDigit (suc n) n [] tt

-- Digits before a byte that is none determine both sides of it.
pub digits-cut :
    (xs ys us vs : List ℕ) (sep : ℕ)
    → b'9' < sep
    → All IsDigit xs
    → All IsDigit ys
    → xs ++ sep ∷ us ≡ ys ++ sep ∷ vs
    → (xs ≡ ys) × (us ≡ vs)
digits-cut [] [] us vs sep h p q e = ground arith
digits-cut [] (y ∷ ys) us vs sep h p q e = absurd (ground arith)
digits-cut (x ∷ xs) [] us vs sep h p q e = absurd (ground arith)
digits-cut (x ∷ xs) (y ∷ ys) us vs sep h p q e =
    ground (arith, digits-cut xs ys us vs sep h p.1 q.1)

format_int-ne-minus : (n : ℕ) (cs : List ℕ) → format_int n ≢ b'-' ∷ cs
format_int-ne-minus n cs e = go (format_int n) (format_int-IsDigit n) e
  where
    go : (xs : List ℕ) → All IsDigit xs → xs ≢ b'-' ∷ cs
    go [] p e = cc
    go (x ∷ xs) p e = ground arith

pub format_signed-injective : (a b : ℤ) → format_signed a ≡ format_signed b → a ≡ b
unfolding format_signed
format_signed-injective (pos a) (pos b) h = ap pos (format_int-injective a b h)
format_signed-injective (pos a) (negsuc b) h = absurd (format_int-ne-minus a _ h)
format_signed-injective (negsuc a) (pos b) h = absurd (format_int-ne-minus b _ (sym h))
format_signed-injective (negsuc a) (negsuc b) h =
    ground (arith, format_int-injective (suc a) (suc b))

-- The code points of a text: its bytes, if it is ASCII.
abbrev pub codes : String → List ℕ
codes String.[] = []
codes (String.◌∷◌ c s) = code c ∷ codes s
