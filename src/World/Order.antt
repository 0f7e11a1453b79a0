-- ===== src/World/Order.antt =====
-- What ORDER BY, WHERE and LIMIT make of the rows of a table.
use mathlib.Core.List.{Perm}
use mathlib.Core.List.Perm
use den_kit_stash.Base.{
  ℕ, zero, suc, ◌≡◌, refl, ap, ◌⊎◌, inl, inr, Bool, true, false, List, [], ◌∷◌, ◌++◌, All, select,
  take, length, Bool-cases,
}
use den_kit_stash.World.Tables.{order_by, insert_sorted}

module _ {R : Type 0} where
  -- Each row stands in the relation to all behind it.
  abbrev pub IsOrdered : (R → R → Type 0) → List R → Type 0
  IsOrdered L [] = Unit
  IsOrdered L (r ∷ rs) = All (L r) rs × IsOrdered L rs

  pub All-weaken : (P Q : R → Type 0) (xs : List R) → ((x : R) → P x → Q x) → All P xs → All Q xs
  All-weaken P Q [] f h = tt
  All-weaken P Q (x ∷ xs) f (h, hs) = (f x h, All-weaken P Q xs f hs)

  pub select-All : (p : R → Bool) (xs : List R) → All (λ x. p x ≡ true) (select p xs)
  select-All p [] = tt
  select-All p (x ∷ xs) = elim (Bool-cases (p x)) [
    | inl hit ↦ rw hit (hit, select-All p xs)
    | inr miss ↦ rw miss (select-All p xs)
  ]

  -- The rows up to a limit, and those behind it.
  abbrev pub drop : ℕ → List R → List R
  drop zero xs = xs
  drop (suc n) [] = []
  drop (suc n) (x ∷ xs) = drop n xs

  pub take-drop : (n : ℕ) (xs : List R) → take n xs ++ drop n xs ≡ xs
  take-drop zero xs = refl
  take-drop (suc n) [] = refl
  take-drop (suc n) (x ∷ xs) = ap (◌∷◌ x) (take-drop n xs)

  pub take-full : (n : ℕ) (xs : List R) → (length (take n xs) ≡ n) ⊎ (drop n xs ≡ [])
  take-full zero xs = inl refl
  take-full (suc n) [] = inr refl
  take-full (suc n) (x ∷ xs) = elim (take-full n xs) [
    | inl full ↦ inl (ap suc full)
    | inr none' ↦ inr none'
  ]

  pub take-All : (P : R → Type 0) (n : ℕ) (xs : List R) → All P xs → All P (take n xs)
  take-All P zero xs h = tt
  take-All P (suc n) [] h = tt
  take-All P (suc n) (x ∷ xs) (h, hs) = (h, take-All P n xs hs)

module _ {R : Type 0} (before : R → R → Bool) where
  insert-Perm : (r : R) (xs : List R) → Perm (insert_sorted before r xs) (r ∷ xs)
  insert-Perm r [] = Perm.rfl
  insert-Perm r (x ∷ xs) = elim (Bool-cases (before r x)) [
    | inl first ↦ rw first Perm.rfl
    | inr later ↦ rw later (Perm.trans (Perm.cons x (insert-Perm r xs)) (Perm.swap r x xs))
  ]

  pub order_by-Perm : (xs : List R) → Perm (order_by before xs) xs
  order_by-Perm [] = Perm.rfl
  order_by-Perm (x ∷ xs) =
      Perm.trans (insert-Perm x (order_by before xs)) (Perm.cons x (order_by-Perm xs))

  insert-All :
      (P : R → Type 0) (r : R) (xs : List R) → P r → All P xs → All P (insert_sorted before r xs)
  insert-All P r [] h hs = (h, tt)
  insert-All P r (x ∷ xs) h (k, ks) = elim (Bool-cases (before r x)) [
    | inl first ↦ rw first (h, (k, ks))
    | inr later ↦ rw later (k, insert-All P r xs h ks)
  ]

  pub order_by-All : (P : R → Type 0) (xs : List R) → All P xs → All P (order_by before xs)
  order_by-All P [] h = tt
  order_by-All P (x ∷ xs) (h, hs) = insert-All P x (order_by before xs) h (order_by-All P xs hs)

  module _ (L : R → R → Type 0) (yes_L : (a b : R) → before a b ≡ true → L a b)
      (no_L : (a b : R) → before a b ≡ false → L b a)
      (trans_L : (a b c : R) → L a b → L b c → L a c) where
    insert-IsOrdered :
        (r : R) (xs : List R) → IsOrdered L xs → IsOrdered L (insert_sorted before r xs)
    insert-IsOrdered r [] h = (tt, tt)
    insert-IsOrdered r (x ∷ xs) (h, hs) = elim (Bool-cases (before r x)) [
      | inl first ↦ rw first (
        ((yes_L r x first, All-weaken (L x) (L r) xs (λ y k. trans_L r x y (yes_L r x first) k) h)),
        (h, hs),
      )
      | inr later ↦ rw later (insert-All (L x) r xs (no_L r x later) h, insert-IsOrdered r xs hs)
    ]

    pub order_by-IsOrdered : (xs : List R) → IsOrdered L (order_by before xs)
    order_by-IsOrdered [] = tt
    order_by-IsOrdered (x ∷ xs) = insert-IsOrdered x (order_by before xs) (order_by-IsOrdered xs)
