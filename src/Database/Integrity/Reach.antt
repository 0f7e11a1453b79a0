-- ===== src/Database/Integrity/Reach.antt =====
-- How far a statement reaches: into one table, and there to the row of one key.
use den_kit_stash.Base.{
  Eq, ℕ, suc, ◌≡◌, refl, sym, subst, inl, inr, Bool, true, false, not, ◌==◌, number_eq, codes_eq,
  List, [], ◌∷◌, ◌++◌, select, Bool-cases,
}
use den_kit_stash.World.{Env, World, Action, exec, lift, Result, ok, err, ◌>>=◌}
use den_kit_stash.World.Tables.{Db, modify_rows}
use den_kit_stash.World.Laws.{exec-world}

-- The rows but those of one key.
abbrev pub OthersStay : {R K : Type 0} → ⦃q : Eq K⦄ → (R → K) → K → List R → List R → Type 0
OthersStay key k old new = select (λ r. not (key r == k)) new ≡ select (λ r. not (key r == k)) old

module _ {R K : Type 0} ⦃q : Eq K⦄ (key : R → K) (k : K) where
  pub others-insert :
      (rows : List R) (r : R) → (key r == k) ≡ true → OthersStay key k rows (rows ++ r ∷ [])
  others-insert [] r same = rw same
  others-insert (x ∷ xs) r same = elim (Bool-cases (key x == k)) [
    | inl hit ↦ rw hit (others-insert xs r same)
    | inr miss ↦ rw (miss, others-insert xs r same)
  ]

  -- Only rows of the key are changed, and keep it.
  pub others-modify :
      (p : R → Bool) (f : R → R) (rows : List R)
      → ((r : R) → (key r == k) ≡ false → p r ≡ false)
      → ((r : R) → key (f r) ≡ key r)
      → OthersStay key k rows (modify_rows p f rows)
  others-modify p f [] only kept = refl
  others-modify p f (r ∷ rs) only kept = elim (Bool-cases (key r == k)) [
    | inr other ↦ rw (only r other, other, others-modify p f rs only kept)
    | inl same ↦ elim (Bool-cases (p r)) [
      | inl hit ↦ rw (hit, kept r, same) (others-modify p f rs only kept)
      | inr miss ↦ rw (miss, same) (others-modify p f rs only kept)
    ]
  ]

-- What holds between the tables before and after a statement, whatever comes of the call.
pub exec-Reach :
    {e : Env} {A : Type 0} (P : Db → Db → Type 0) (allowed : Db → Bool) (f : ℕ → Db → A × Db)
    (w : World e)
    → P w.db w.db
    → ((now : ℕ) → P w.db (f now w.db).1)
    → P w.db (exec allowed f w).1.db
exec-Reach {e} P allowed f w stays done = elim (exec-world allowed f w) [
  | inl same ↦ subst (λ v. P w.db v.db) (sym same) stays
  | inr (_, same) ↦ subst (λ v. P w.db v.db) (sym same) (done (e.now (suc w.calls)))
]

-- What a statement needs first may fail.
pub lift-Reach :
    {e : Env} {E A B : Type 0} (P : Db → Db → Type 0) (r : Result E B) (f : B → Action e E A)
    (w : World e)
    → P w.db w.db
    → ((b : B) → P w.db (f b w).1.db)
    → P w.db ((lift r >>= f) w).1.db
lift-Reach P (ok b) f w stays done = done b
lift-Reach P (err x) f w stays done = stays
