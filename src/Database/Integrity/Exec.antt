-- ===== src/Database/Integrity/Exec.antt =====
-- A statement that keeps the tables valid, as a call of the program.
use den_kit_stash.Base.{ℕ, suc, ◌≡◌, sym, inl, inr, Bool, true, number_eq, text_eq, codes_eq, subst}
use den_kit_stash.World.{Env, World, exec}
use den_kit_stash.World.Tables.{Db}
use den_kit_stash.World.Laws.{exec-world}
use den_kit_stash.World.Keeps.{Keeps}
use den_kit_stash.Database.Integrity.{IsValid}

abbrev pub Valid : {e : Env} → World e → Type 0
Valid w = IsValid w.db

module _ {e : Env} where
  pub exec-Valid :
      {A : Type 0} (allowed : Db → Bool) (f : ℕ → Db → A × Db)
      → ((now : ℕ) (db : Db) → allowed db ≡ true → IsValid db → IsValid (f now db).1)
      → Keeps {e = e} Valid (exec allowed f)
  exec-Valid allowed f kept = record {
    at = λ w h. elim (exec-world allowed f w) [
      | inl same ↦ subst (λ v. IsValid v.db) (sym same) h
      | inr (ok, same) ↦ subst (λ v. IsValid v.db) (sym same) (kept (e.now (suc w.calls)) w.db ok h)
    ];
  }
