-- ===== src/World/Reads.antt =====
-- Actions that only read, and what a chain of reads found once it has succeeded.
use den_kit_stash.Base.{◌≡◌, ◌∙◌, ap, Option, some, arith, subst}
use den_kit_stash.World.Tables.{Db}
use den_kit_stash.World.{
  Env, World, Action, Error, Result, ok, ◌>>=◌, ◌or_fail◌, call, query, query_row,
}
use den_kit_stash.World.Laws.{
  query_row-ok, query_row-world, query-ok, query-world, bind-ok, or_fail-ok,
}
use den_kit_stash.World.Keeps.{Keeps}

-- The tables and the object store are these.
pub record Untouched {e : Env} (db : Db) (objects : e.Objects) (w : World e) : Type 0 where
  pub tables : w.db ≡ db
  pub stored : w.objects ≡ objects

module _ {e : Env} {db : Db} {objects : e.Objects} where
  pub Untouched-call :
      {A : Type 0} (f : World e → Result Error A)
      → Keeps (Untouched {e = e} db objects) (call (λ w. (f w, w)))
  unfolding call
  Untouched-call f = record { at = λ w h. ground arith }

  pub Untouched-query : {A : Type 0} (f : Db → A) → Keeps (Untouched {e = e} db objects) (query f)
  Untouched-query f = record {
    at = λ w h. rw query-world (record { tables = h.tables; stored = h.stored });
  }

  pub Untouched-query_row :
      {A : Type 0} (f : Db → Option A) → Keeps (Untouched {e = e} db objects) (query_row f)
  Untouched-query_row f = record {
    at = λ w h. rw query_row-world (record { tables = h.tables; stored = h.stored });
  }

-- What a bind that succeeded on an action that keeps the tables has run.
module _ {e : Env} {E A B : Type 0} where
  abbrev pub Found : Db → (A → Type 0) → (A → Action e E B) → B → Type 0
  Found db P f b = (a : A) × P a × (w : World e) × (w.db ≡ db) × ((f a w).0 ≡ ok b)

module _ {e : Env} {F A B : Type 0} where
  pub query_row-Found :
      (q : Db → Option A) (x : F) (f : A → Action e F B) (db : Db) (w : World e) (b : B)
      → w.db ≡ db
      → ((query_row q or_fail x >>= f) w).0 ≡ ok b
      → Found db (λ a. q db ≡ some a) f b
  query_row-Found q x f db w b same h =
      let (a, got, h1) = bind-ok (query_row q or_fail x) f w b h in
      (
        a,
        subst (λ d. q d ≡ some a) same (query_row-ok q w a (or_fail-ok (query_row q) x w a got)),
        (query_row q w).1,
        ap (λ v. v.db) (query_row-world q w) ∙ same,
        h1,
      )

  pub query-Found :
      (q : Db → A) (x : F) (f : A → Action e F B) (db : Db) (w : World e) (b : B)
      → w.db ≡ db
      → ((query q or_fail x >>= f) w).0 ≡ ok b
      → Found db (λ a. q db ≡ a) f b
  query-Found q x f db w b same h =
      let (a, got, h1) = bind-ok (query q or_fail x) f w b h in
      (
        a,
        subst (λ d. q d ≡ a) same (query-ok q w a (or_fail-ok (query q) x w a got)),
        (query q w).1,
        ap (λ v. v.db) (query-world q w) ∙ same,
        h1,
      )
