-- ===== src/World/Laws.antt =====
-- What a call to the database may do, whatever its outcome.
use den_kit_stash.Base.{ℕ, suc, ◌≡◌, refl, ◌⊎◌, inl, inr, Bool, true, Option, none, some, arith}
use den_kit_stash.World.Tables.{Db}
use den_kit_stash.World.{
  call, Error, Action, ◌>>=◌, ◌or_fail◌, attempt, Env, World, Result, ok, err, query, query_row,
  exec, from_option,
}

-- The world with one more call made.
abbrev pub ticked : {e : Env} → World e → World e
ticked w = record w { calls = suc w.calls }

module _ {e : Env} {A : Type 0} where
  -- A call that is answered is what the operation does.
  pub call-ok :
      (op : Action e Error A) (w : World e) (a : A)
      → (call op w).0 ≡ ok a
      → call op w ≡ op (ticked w)
  unfolding call
  call-ok op w a h = ground arith

  pub query_row-world : (f : Db → Option A) (w : World e) → (query_row f w).1 ≡ ticked w
  unfolding query_row
  query_row-world f w = ground arith

  pub query_row-ok :
      (f : Db → Option A) (w : World e) (a : A) → (query_row f w).0 ≡ ok a → f w.db ≡ some a
  unfolding query_row
  query_row-ok f w a h = ground arith

  pub query-world : (f : Db → A) (w : World e) → (query f w).1 ≡ ticked w
  unfolding query
  query-world f w = ground arith

  pub query-ok : (f : Db → A) (w : World e) (a : A) → (query f w).0 ≡ ok a → f w.db ≡ a
  unfolding query
  query-ok f w a h = ground arith

  -- A write leaves the tables alone, or is allowed and changes them by its statement.
  pub exec-world :
      (allowed : Db → Bool) (f : ℕ → Db → A × Db) (w : World e)
      → ((exec allowed f w).1 ≡ ticked w)
        ⊎ ((allowed w.db ≡ true)
            × ((exec allowed f w).1 ≡ record (ticked w) { db = (f (e.now (suc w.calls)) w.db).1 }))
  unfolding exec
  exec-world allowed f w = ground arith

  -- A write that is answered has been made.
  pub exec-ok :
      (allowed : Db → Bool) (f : ℕ → Db → A × Db) (w : World e) (a : A)
      → (exec allowed f w).0 ≡ ok a
      → (allowed w.db ≡ true)
        × (exec allowed f w ≡ (
          ok (f (e.now (suc w.calls)) w.db).0,
          record (ticked w) { db = (f (e.now (suc w.calls)) w.db).1 },
        ))
  unfolding exec
  exec-ok allowed f w a h = ground arith

pub Result-cases :
    {E A : Type 0} (r : Result E A) → ((a : A) × (r ≡ ok a)) ⊎ ((x : E) × (r ≡ err x))
Result-cases (ok a) = inl (a, refl)
Result-cases (err x) = inr (x, refl)

pub ok-inj : {E A : Type 0} {a b : A} → ◌≡◌ {A = Result E A} (ok a) (ok b) → a ≡ b
ok-inj h = cc h

-- Inversion of what succeeds.
module _ {e : Env} {E A B : Type 0} where
  pub bind-ok :
      (m : Action e E A) (f : A → Action e E B) (w : World e) (b : B)
      → ((m >>= f) w).0 ≡ ok b
      → (a : A) × ((m w).0 ≡ ok a) × ((f a (m w).1).0 ≡ ok b)
  bind-ok m f w b h = elim (Result-cases (m w).0) [
    | inl (a, p) ↦ (a, p, rw p at h)
    | inr (x, p) ↦ absurd (cc (rw p at h))
  ]

  -- What follows an action that succeeds runs in the world that it leaves.
  pub bind-run :
      (m : Action e E A) (f : A → Action e E B) (w : World e) (a : A)
      → (m w).0 ≡ ok a
      → (m >>= f) w ≡ f a (m w).1
  bind-run m f w a h = rw h

  -- Where an action fails, what follows does not run.
  pub bind-err :
      (m : Action e E A) (f : A → Action e E B) (w : World e) (x : E)
      → (m w).0 ≡ err x
      → (m >>= f) w ≡ (err x, (m w).1)
  bind-err m f w x h = rw h

module _ {e : Env} {E F A : Type 0} where
  pub or_fail-ok :
      (m : Action e E A) (x : F) (w : World e) (a : A) → ((m or_fail x) w).0 ≡ ok a → (m w).0 ≡ ok a
  or_fail-ok m x w a h = elim (Result-cases (m w).0) [
    | inl (b, p) ↦ let q = rw p at h in cc (p, q)
    | inr (y, p) ↦ absurd (cc (rw p at h))
  ]

pub attempt-some :
    {e : Env} {E F A : Type 0} (m : Action e E A) (w : World e) (a : A)
    → (attempt {F = F} m w).0 ≡ ok (some a)
    → (m w).0 ≡ ok a
attempt-some m w a h = elim (Result-cases (m w).0) [
  | inl (b, p) ↦ let same = ok-inj (rw p at h) in cc (p, same)
  | inr (x, p) ↦ absurd (let bad = ok-inj (rw p at h) in cc bad)
]

pub from_option-ok :
    {E A : Type 0} (x : E) (o : Option A) (a : A) → from_option x o ≡ ok a → o ≡ some a
from_option-ok x none a h = absurd (cc)
from_option-ok x (some b) a h = cc
