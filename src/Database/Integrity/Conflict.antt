-- ===== src/Database/Integrity/Conflict.antt =====
-- A username that is in use.
use den_kit_stash.Base.{
  ℕ, String, ◌≡◌, refl, ap, inl, inr, Bool, true, false, not, ◌&&◌, ◌||◌, ◌==◌, number_eq, text_eq,
  List, [], ◌∷◌, All, any, Bool-cases, if_keeps,
}
use den_kit_stash.Model.{User}
use den_kit_stash.World.{Env, World, Error, err, exec}
use den_kit_stash.World.Tables.{Db}
use den_kit_stash.World.Laws.{Result-cases, exec-world, exec-ok}
use den_kit_stash.Database.Users.{create_user, api_key_digest, taken}
use den_kit_stash.Database.Integrity.{IsValid}
use den_kit_stash.Database.Integrity.Rows.{below}

taken_name :
    (next : ℕ) (name digest : String) (rows : List User)
    → All (λ u. (u.id == next) ≡ false) rows
    → any (λ u. u.username == name) rows ≡ true
    → any (λ u. not (u.id == next) && (u.username == name || u.api_key == digest)) rows ≡ true
taken_name next name digest [] fresh h = absurd (cc h)
taken_name next name digest (u ∷ us) (new, fresh) h = elim (Bool-cases (u.username == name)) [
  | inl same ↦ rw (new, same)
  | inr other ↦
      if_keeps (λ b. b ≡ true) (not (u.id == next) && (u.username == name || u.api_key == digest))
        true _ refl (taken_name next name digest us fresh (rw other at h))
]

-- An INSERT that its clauses do not allow.
exec-refused :
    {e : Env} {A : Type 0} (allowed : Db → Bool) (f : ℕ → Db → A × Db) (w : World e)
    → allowed w.db ≡ false
    → ((x : Error) × ((exec allowed f w).0 ≡ err x)) × ((exec allowed f w).1.db ≡ w.db)
exec-refused allowed f w h = (
  elim (Result-cases (exec allowed f w).0) [
    | inl (a, made) ↦ absurd (let (held, _) = exec-ok allowed f w a made in cc (h, held))
    | inr failed ↦ failed
  ],
  elim (exec-world allowed f w) [
    | inl same ↦ ap (λ v. v.db) same
    | inr (held, _) ↦ absurd (cc (h, held))
  ],
)

-- `CreateUser` does not succeed under a username that a row of valid tables has, and leaves the
-- tables alone.
pub create_user_taken :
    {e : Env} (given : User) (w : World e)
    → IsValid w.db
    → any (λ u. u.username == given.username) w.db.users.rows ≡ true
    → ((x : Error) × ((create_user given w).0 ≡ err x)) × ((create_user given w).1.db ≡ w.db)
unfolding create_user
create_user_taken {e} given w h used = elim (Result-cases (api_key_digest e given.api_key)) [
  | inr (x, no_digest) ↦ rw no_digest ((x, refl), refl)
  | inl (digest, found) ↦
      let refused : not (taken w.db w.db.users.next_id given.username digest) ≡ false = ap not (
        taken_name w.db.users.next_id given.username digest w.db.users.rows
          (below (λ u. u.id) 1 w.db.users.next_id w.db.users.rows h.user_keys) used) in
      rw found (exec-refused _ _ w refused)
]
