-- ===== src/Prelude/ListLaws.antt =====
-- Laws of the list searches and updates that stand for SQL statements.
use Prim.Native.Nat.{◌+◌, ◌≤◌}
use mathlib.Core.Path.{◌≡◌, refl, subst}
use mathlib.Core.Logic.{inl, inr}
use mathlib.Core.Bool.{Bool, true, false}
use mathlib.Core.Option.{Option, none, some}
use mathlib.Core.List.{List, [], ◌∷◌, ◌++◌}
use native.Mathlib.Omega.{arith}
use pulse_pager.Prelude.Tests.{if◌then◌else◌, Bool-cases}
use pulse_pager.Prelude.Lists.{find, update_where, keep_where, count_where, any, All}

module _ {ℓ} {A : Type ℓ} where
  abbrev pub or_find : Option A → Option A → Option A
  or_find none o = o
  or_find (some x) o = some x

  abbrev pub map_some {κ} : {B : Type κ} → (A → B) → Option A → Option B
  map_some f none = none
  map_some f (some x) = some (f x)

module _ {ℓ} {A : Type ℓ} (p : A → Bool) where
  pub find-holds : (xs : List A) {x : A} → find p xs ≡ some x → p x ≡ true
  unfolding find
  find-holds [] e = cc
  find-holds (x ∷ xs) e = elim (Bool-cases (p x)) [
    | inl h ↦ ground (arith, h)
    | inr h ↦ find-holds xs (rw h at e)
  ]

  pub find-append : (xs ys : List A) → find p (xs ++ ys) ≡ or_find (find p xs) (find p ys)
  unfolding find
  find-append [] ys = refl
  find-append (x ∷ xs) ys = ground (arith, find-append xs ys)

  pub find-none-any : (xs : List A) → find p xs ≡ none → any p xs ≡ false
  unfolding find
  find-none-any [] e = refl
  find-none-any (x ∷ xs) e = ground (arith, find-none-any xs)

  pub any-none-find : (xs : List A) → any p xs ≡ false → find p xs ≡ none
  unfolding find
  any-none-find [] e = refl
  any-none-find (x ∷ xs) e = ground (arith, any-none-find xs)

  pub find-some-any : (xs : List A) (a : A) → find p xs ≡ some a → any p xs ≡ true
  unfolding find
  find-some-any [] a e = cc
  find-some-any (x ∷ xs) a e = ground (arith, find-some-any xs a)

  pub any-append : (xs ys : List A) → any p (xs ++ ys) ≡ (if any p xs then true else any p ys)
  any-append [] ys = refl
  any-append (x ∷ xs) ys = ground (arith, any-append xs ys)

  pub count_where-append :
      (xs ys : List A) → count_where p (xs ++ ys) ≡ count_where p xs + count_where p ys
  unfolding count_where
  count_where-append [] ys = omega arith
  count_where-append (x ∷ xs) ys = omega (arith, count_where-append xs ys)

  pub count_where_zero : (xs : List A) → any p xs ≡ false → count_where p xs ≡ 0
  unfolding count_where
  count_where_zero [] e = refl
  count_where_zero (x ∷ xs) e = ground (arith, count_where_zero xs)

  pub count_where_mono :
      (q : A → Bool)
      → ((x : A) → p x ≡ true → q x ≡ true)
      → (xs : List A) → count_where p xs ≤ count_where q xs
  unfolding count_where
  count_where_mono q h [] = omega arith
  count_where_mono q h (x ∷ xs) = ground (arith, h x, count_where_mono q h xs)

  pub count_where-keep_where :
      (q : A → Bool) (xs : List A) → count_where p (keep_where q xs) ≤ count_where p xs
  unfolding count_where keep_where
  count_where-keep_where q [] = omega arith
  count_where-keep_where q (x ∷ xs) = ground (arith, count_where-keep_where q xs)

module _ {ℓ} {A : Type ℓ} (p q : A → Bool) (f : A → A) where
  pub find-update_where :
      ((x : A) → p (f x) ≡ p x)
      → (xs : List A)
      → find p (update_where q f xs) ≡ map_some (λ x. if q x then f x else x) (find p xs)
  unfolding find update_where
  find-update_where h [] = refl
  find-update_where h (x ∷ xs) = ground (arith, h x, find-update_where h xs)

  pub any-update_where :
      ((x : A) → p (f x) ≡ p x) → (xs : List A) → any p (update_where q f xs) ≡ any p xs
  unfolding update_where
  any-update_where h [] = refl
  any-update_where h (x ∷ xs) = ground (arith, h x, any-update_where h xs)

  pub count_where-update_where :
      ((x : A) → p (f x) ≡ true → p x ≡ true)
      → (xs : List A) → count_where p (update_where q f xs) ≤ count_where p xs
  unfolding count_where update_where
  count_where-update_where h [] = omega arith
  count_where-update_where h (x ∷ xs) = ground (arith, h x, count_where-update_where h xs)

module _ {ℓ κ} {A : Type ℓ} (P : A → Type κ) where
  pub All-append : (xs ys : List A) → All P xs → All P ys → All P (xs ++ ys)
  All-append [] ys h k = k
  All-append (x ∷ xs) ys h k = (h.0, All-append xs ys h.1 k)

  pub All-mono : (Q : A → Type κ) → ((x : A) → P x → Q x) → (xs : List A) → All P xs → All Q xs
  All-mono Q h [] k = k
  All-mono Q h (x ∷ xs) k = (h x k.0, All-mono Q h xs k.1)

  pub All-find : (p : A → Bool) (xs : List A) {x : A} → All P xs → find p xs ≡ some x → P x
  unfolding find
  All-find p [] h e = cc
  All-find p (y ∷ xs) {x} h e = elim (Bool-cases (p y)) [
    | inl t ↦ subst P (ground (arith, t)) h.0
    | inr t ↦ All-find p xs h.1 (rw t at e)
  ]

  pub All-update_at :
      (p : A → Bool) (f : A → A)
      → ((x : A) → p x ≡ true → P x → P (f x))
      → (xs : List A) → All P xs
      → All P (update_where p f xs)
  unfolding update_where
  All-update_at p f h [] k = k
  All-update_at p f h (x ∷ xs) k = elim (Bool-cases (p x)) [
    | inl t ↦ rw t (h x t k.0, All-update_at p f h xs k.1)
    | inr t ↦ rw t (k.0, All-update_at p f h xs k.1)
  ]

  pub All-update_where :
      (p : A → Bool) (f : A → A)
      → ((x : A) → P x → P (f x))
      → (xs : List A) → All P xs
      → All P (update_where p f xs)
  unfolding update_where
  All-update_where p f h [] k = k
  All-update_where p f h (x ∷ xs) k = elim (Bool-cases (p x)) [
    | inl t ↦ rw t (h x k.0, All-update_where p f h xs k.1)
    | inr t ↦ rw t (k.0, All-update_where p f h xs k.1)
  ]

  pub All-keep_where : (p : A → Bool) (xs : List A) → All P xs → All P (keep_where p xs)
  unfolding keep_where
  All-keep_where p [] k = k
  All-keep_where p (x ∷ xs) k = elim (Bool-cases (p x)) [
    | inl t ↦ rw t (k.0, All-keep_where p xs k.1)
    | inr t ↦ rw t (All-keep_where p xs k.1)
  ]

-- What holds of each element after an update, of the updated ones and of the others.
pub update_where-set {ℓ} :
    {A : Type ℓ} (P : A → Type 0) (p : A → Bool) (f : A → A) (xs : List A)
    → ((x : A) → p x ≡ true → P (f x))
    → ((x : A) → p x ≡ false → P x)
    → All P (update_where p f xs)
unfolding update_where
update_where-set P p f [] h k = tt
update_where-set P p f (x ∷ xs) h k = elim (Bool-cases (p x)) [
  | inl e ↦ rw e (h x e, update_where-set P p f xs h k)
  | inr e ↦ rw e (k x e, update_where-set P p f xs h k)
]
