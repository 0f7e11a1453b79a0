-- ===== src/Base/Lists.antt =====
-- Lists measured by native numbers, and the searches by a Boolean test that the program makes.
use Prim.Native.Nat.{ℕ, zero, suc, ◌+◌, ◌≤◌}
use mathlib.Core.Path.{◌≡◌, refl, ap, subst}
use mathlib.Core.Bool.{Bool, true, false}
use mathlib.Core.List.{List, [], ◌∷◌, ◌++◌}
use mathlib.Core.Option.{Option, none, some}
use native.Mathlib.Omega.{arith}
use mathlib.Core.Logic.{◌⊎◌, inl, inr}
use den_kit_stash.Base.Tests.{if◌then◌else◌, Bool-cases}

module _ {ℓ} {A : Type ℓ} where
  abbrev pub length : List A → ℕ
  length [] = 0
  length (x ∷ xs) = suc (length xs)

  abbrev pub take : ℕ → List A → List A
  take zero xs = []
  take (suc n) [] = []
  take (suc n) (x ∷ xs) = x ∷ take n xs

  -- The first entry that passes the test.
  abbrev pub find : (A → Bool) → List A → Option A
  find p [] = none
  find p (x ∷ xs) = if p x then some x else find p xs

  -- The entries that pass the test, in order.
  abbrev pub select : (A → Bool) → List A → List A
  select p [] = []
  select p (x ∷ xs) = let rest = select p xs in if p x then x ∷ rest else rest

  abbrev pub any : (A → Bool) → List A → Bool
  any p [] = false
  any p (x ∷ xs) = if p x then true else any p xs

  abbrev pub All {κ} : (A → Type κ) → List A → Type κ
  All P [] = Unit
  All P (x ∷ xs) = P x × All P xs

  pub length-append : (xs ys : List A) → length (xs ++ ys) ≡ length xs + length ys
  length-append [] ys = omega arith
  length-append (x ∷ xs) ys = omega (arith, length-append xs ys)

  pub take-length : (n : ℕ) (xs : List A) → length xs ≤ n → take n xs ≡ xs
  take-length zero [] h = refl
  take-length zero (x ∷ xs) h = absurd (omega arith)
  take-length (suc n) [] h = refl
  take-length (suc n) (x ∷ xs) h = ap (◌∷◌ x) (take-length n xs (omega arith))

  pub take-append : (xs ys : List A) → take (length xs) (xs ++ ys) ≡ xs
  take-append [] ys = refl
  take-append (x ∷ xs) ys = ap (◌∷◌ x) (take-append xs ys)

  pub length-take_le : (n : ℕ) (xs : List A) → length (take n xs) ≤ n
  length-take_le zero xs = omega arith
  length-take_le (suc n) [] = omega arith
  length-take_le (suc n) (x ∷ xs) = omega (arith, length-take_le n xs)

  pub find-passes : (p : A → Bool) (xs : List A) (a : A) → find p xs ≡ some a → p a ≡ true
  find-passes p [] a h = ground arith
  find-passes p (x ∷ xs) a h = ground (arith, find-passes p xs a)

  pub find-All :
      (P : A → Type 0) (p : A → Bool) (xs : List A) (a : A) → All P xs → find p xs ≡ some a → P a
  find-All P p [] a h k = absurd (cc k)
  find-All P p (x ∷ xs) a (h, hs) k = elim (Bool-cases (p x)) [
    | inl hit ↦ (let same : x ≡ a = (let k' = rw hit at k in cc k') in subst P same h)
    | inr miss ↦ find-All P p xs a hs (rw miss at k)
  ]

module _ {A : Type 0} where
  -- One of the rows.
  abbrev pub IsRow : A → List A → Type 0
  IsRow a [] = ⊥
  IsRow a (x ∷ xs) = (x ≡ a) ⊎ IsRow a xs

  pub find-IsRow : (p : A → Bool) (xs : List A) (a : A) → find p xs ≡ some a → IsRow a xs
  find-IsRow p [] a h = absurd (cc h)
  find-IsRow p (x ∷ xs) a h = elim (Bool-cases (p x)) [
    | inl hit ↦ inl (let h' = rw hit at h in cc h')
    | inr miss ↦ inr (find-IsRow p xs a (rw miss at h))
  ]
