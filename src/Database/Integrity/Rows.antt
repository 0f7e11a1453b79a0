-- ===== src/Database/Integrity/Rows.antt =====
-- Inserted and modified rows, under the clauses of a table.
use den_kit_stash.Base.{
  ℕ, suc, ◌≤◌, ◌<◌, ◌≡◌, refl, sym, ◌∙◌, inl, inr, Bool, true, false, not, ◌&&◌, ◌==◌, number_eq,
  List, [], ◌∷◌, ◌++◌, All, any, arith, if◌then◌else◌, Bool-cases, eq_of_true, subst,
}
use den_kit_stash.World.Tables.{modify_rows}
use den_kit_stash.Database.Integrity.{IsAscending, IsUnique}

module _ {R : Type 0} (id : R → ℕ) where
  pub insert-IsAscending :
      (low next : ℕ) (rows : List R) (x : R)
      → id x ≡ next
      → IsAscending id low rows next
      → IsAscending id low (rows ++ x ∷ []) (suc next)
  insert-IsAscending low next [] x same h = (omega arith, omega arith)
  insert-IsAscending low next (r ∷ rs) x same (h, hs) =
      (h, insert-IsAscending (suc (id r)) next rs x same hs)

  pub modify-IsAscending :
      (p : R → Bool) (f : R → R)
      → ((r : R) → id (f r) ≡ id r)
      → (low next : ℕ) (rows : List R) → IsAscending id low rows next
      → IsAscending id low (modify_rows p f rows) next
  modify-IsAscending p f kept low next [] h = h
  modify-IsAscending p f kept low next (r ∷ rs) (h, hs) =
      subst (λ n. (low ≤ n) × IsAscending id (suc n) (modify_rows p f rs) next) (sym (same (p r)))
        (h, modify-IsAscending p f kept (suc (id r)) next rs hs)
    where
      same : (b : Bool) → id (if b then f r else r) ≡ id r
      same true = kept r
      same false = refl

  -- Ids above a number are not that number, and those below the next are not the next.
  pub above :
      (n low next : ℕ) (rows : List R)
      → n < low
      → IsAscending id low rows next
      → All (λ r. (id r == n) ≡ false) rows
  above n low next [] b h = tt
  above n low next (r ∷ rs) b (h, hs) =
      (ground arith, above n (suc (id r)) next rs (omega arith) hs)

  pub below_next : (low next : ℕ) (rows : List R) → IsAscending id low rows next → low ≤ next
  below_next low next [] h = h
  below_next low next (r ∷ rs) (h, hs) = (let k = below_next (suc (id r)) next rs hs in omega arith)

  pub below :
      (low next : ℕ) (rows : List R)
      → IsAscending id low rows next
      → All (λ r. (id r == next) ≡ false) rows
  below low next [] h = tt
  below low next (r ∷ rs) (h, hs) =
      (let k = below_next (suc (id r)) next rs hs in ground arith, below (suc (id r)) next rs hs)

module _ {R : Type 0} where
  pub All-append : (P : R → Type 0) (xs : List R) (x : R) → All P xs → P x → All P (xs ++ x ∷ [])
  All-append P [] x h k = (k, tt)
  All-append P (y ∷ ys) x (h, hs) k = (h, All-append P ys x hs k)

  pub All-map : (P Q : R → Type 0) (xs : List R) → ((r : R) → P r → Q r) → All P xs → All Q xs
  All-map P Q [] f h = tt
  All-map P Q (x ∷ xs) f (h, hs) = (f x h, All-map P Q xs f hs)

  pub All-modify :
      (P : R → Type 0) (p : R → Bool) (f : R → R) (xs : List R)
      → ((r : R) → P r → P (f r))
      → All P xs
      → All P (modify_rows p f xs)
  All-modify P p f [] k h = tt
  All-modify P p f (x ∷ xs) k (h, hs) = (one (p x), All-modify P p f xs k hs)
    where
      one : (b : Bool) → P (if b then f x else x)
      one true = k x h
      one false = h

  -- What was there is there, behind an INSERT and behind an UPDATE that keeps what is asked for.
  pub any-append : (q : R → Bool) (xs ys : List R) → any q xs ≡ true → any q (xs ++ ys) ≡ true
  any-append q [] ys h = absurd (cc h)
  any-append q (x ∷ xs) ys h = elim (Bool-cases (q x)) [
    | inl hit ↦ rw hit refl
    | inr miss ↦ (let h' = rw miss at h in rw miss (any-append q xs ys h'))
  ]

  pub any-modify :
      (q p : R → Bool) (f : R → R) (xs : List R)
      → ((r : R) → q (f r) ≡ q r)
      → any q (modify_rows p f xs) ≡ any q xs
  any-modify q p f [] same = refl
  any-modify q p f (x ∷ xs) same = rw (one (p x), any-modify q p f xs same) refl
    where
      one : (b : Bool) → q (if b then f x else x) ≡ q x
      one true = same x
      one false = refl

  pub any-none : (q : R → Bool) (xs : List R) → any q xs ≡ false → All (λ x. q x ≡ false) xs
  any-none q [] h = tt
  any-none q (x ∷ xs) h = elim (Bool-cases (q x)) [
    | inl hit ↦ absurd (let h' = rw hit at h in cc h')
    | inr miss ↦ (miss, any-none q xs (rw miss at h))
  ]

module _ {R : Type 0} (id : R → ℕ) (clash : R → R → Bool) where
  pub insert-IsUnique :
      (rows : List R) (x : R)
      → All (λ r. clash r x ≡ false) rows
      → IsUnique clash rows
      → IsUnique clash (rows ++ x ∷ [])
  insert-IsUnique [] x h k = (tt, tt)
  insert-IsUnique (r ∷ rs) x (h, hs) (k, ks) =
      (All-append (λ s. clash r s ≡ false) rs x k h, insert-IsUnique rs x hs ks)

  -- What the search that stands for a UNIQUE clause has found of the rows but that of the id `k`.
  abbrev pub IsFree : ℕ → R → List R → Type 0
  IsFree k x rows = All (λ r. (not (id r == k) && clash r x) ≡ false) rows

  pub free-All :
      (k : ℕ) (x : R) (rows : List R)
      → IsFree k x rows
      → All (λ r. (id r == k) ≡ false) rows
      → All (λ r. clash r x ≡ false) rows
  free-All k x [] h fresh = tt
  free-All k x (r ∷ rs) (free, rest) (other, fresh) = (rw other at free, free-All k x rs rest fresh)

  -- An UPDATE of the row of the id `k`, to what clashes as `x` does.
  module _ (k : ℕ) (x : R) (f : R → R) (left : (r s : R) → clash (f r) s ≡ clash s x)
      (right : (r s : R) → clash r (f s) ≡ clash r x) where
    abbrev set : R → R
    set r = if id r == k then f r else r

    -- Behind the row that is changed no row is.
    behind :
        (rs : List R)
        → IsFree k x rs
        → All (λ s. (id s == k) ≡ false) rs
        → (r : R) → All (λ s. clash (f r) s ≡ false) (modify_rows (λ s. id s == k) f rs)
    behind [] h fresh r = tt
    behind (s ∷ rs) (free, rest) (other, fresh) r =
        let clear : clash s x ≡ false = (rw other at free) in
        let this : clash (f r) s ≡ false = left r s ∙ clear in
        (rw other this, behind rs rest fresh r)

    -- A row that is not changed, against those behind it.
    ahead :
        (rs : List R) (r : R)
        → clash r x ≡ false
        → All (λ s. clash r s ≡ false) rs
        → All (λ s. clash r s ≡ false) (modify_rows (λ s. id s == k) f rs)
    ahead [] r free h = tt
    ahead (s ∷ rs) r free (h, hs) = (one (id s == k), ahead rs r free hs)
      where
        one : (b : Bool) → clash r (if b then f s else s) ≡ false
        one true = right r s ∙ free
        one false = h

    pub modify-IsUnique :
        (low next : ℕ) (rows : List R)
        → IsAscending id low rows next
        → IsFree k x rows
        → IsUnique clash rows
        → IsUnique clash (modify_rows (λ s. id s == k) f rows)
    modify-IsUnique low next [] ids h u = tt
    modify-IsUnique low next (r ∷ rs) (_, ids) (free, rest) (now, later) =
        (one (id r == k) refl, modify-IsUnique (suc (id r)) next rs ids rest later)
      where
        one :
            (b : Bool)
            → (id r == k) ≡ b
            → All (λ s. clash (if b then f r else r) s ≡ false) (modify_rows (λ s. id s == k) f rs)
        one true same =
            let here : id r ≡ k = eq_of_true (id r) k same in
            behind rs rest (above id k (suc (id r)) next rs (omega arith) ids) r
        one false other = ahead rs r (rw other at free) now

-- An UPDATE that leaves what clashes alone.
module _ {R : Type 0} (clash : R → R → Bool) (p : R → Bool) (f : R → R)
    (left : (r s : R) → clash (f r) s ≡ clash r s)
    (right : (r s : R) → clash r (f s) ≡ clash r s) where
  pub keep-IsUnique : (rows : List R) → IsUnique clash rows → IsUnique clash (modify_rows p f rows)
  keep-IsUnique [] h = tt
  keep-IsUnique (r ∷ rs) (h, hs) = (one (p r), keep-IsUnique rs hs)
    where
      other : All (λ s. clash r s ≡ false) (modify_rows p f rs)
      other = All-modify (λ s. clash r s ≡ false) p f rs (λ s k. right r s ∙ k) h

      one : (b : Bool) → All (λ s. clash (if b then f r else r) s ≡ false) (modify_rows p f rs)
      one false = other
      one true = All-map (λ s. clash r s ≡ false) _ (modify_rows p f rs) (λ s k. left r s ∙ k) other
