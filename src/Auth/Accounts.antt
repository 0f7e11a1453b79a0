-- ===== src/Auth/Accounts.antt =====
-- An account that is created can be used.
use den_kit_stash.Base.{
  ℕ, not-true, suc, String, ◌≡◌, refl, sym, ap, ◌∙◌, ◌⊎◌, inl, inr, Bool, true, false, not, ◌&&◌,
  ◌||◌, ◌==◌, number_eq, text_eq, Option, some, List, [], ◌∷◌, ◌++◌, All, any, find, arith, eq_refl,
  if◌then◌else◌,
}
use den_kit_stash.Model.{User}
use den_kit_stash.World.{Env, World, Error, unavailable, Result, ok, err, query_row, exec, call}
use den_kit_stash.World.Tables.{Db, insert}
use den_kit_stash.World.Laws.{exec-ok, Result-cases, ok-inj}
use den_kit_stash.Database.Users.{
  api_key_digest, create_user, get_user_by_api_key, default_role, taken,
}

unused :
    (same_id same_name same_key rest : Bool)
    → same_id ≡ false
    → (if not same_id && (same_name || same_key) then true else rest) ≡ false
    → (same_key ≡ false) × (rest ≡ false)
unused same_id same_name same_key rest h k = ground arith

-- The last row is found where no other has the name or the digest.
find_new :
    (n : ℕ) (name digest : String) (x : User) (rows : List User)
    → All (λ u. (u.id == n) ≡ false) rows
    → any (λ u. not (u.id == n) && (u.username == name || u.api_key == digest)) rows ≡ false
    → (x.api_key == digest && x.is_active) ≡ true
    → find (λ u. u.api_key == digest && u.is_active) (rows ++ x ∷ []) ≡ some x
find_new n name digest x [] fresh free h = rw h refl
find_new n name digest x (u ∷ us) fresh free h =
    let (other, free') =
      unused (u.id == n) (u.username == name) (u.api_key == digest) _ fresh.0 free in
    rw other (find_new n name digest x us fresh.1 free' h)

query_row-cases :
    {e : Env} {A : Type 0} (f : Db → Option A) (w : World e) (a : A)
    → f w.db ≡ some a
    → ((query_row f w).0 ≡ ok a) ⊎ ((query_row f w).0 ≡ err unavailable)
unfolding query_row call
query_row-cases f w a h = ground arith

-- The row that CreateUser answers, the tables that it writes, and its guard.
abbrev created_user : User → ℕ → ℕ → User
created_user given now id = record given {
  id = id;
  role = default_role given.role;
  created_at = now;
  updated_at = now;
}

abbrev created_db : User → String → ℕ → Db → User × Db
created_db given digest now db = (
  created_user given now db.users.next_id,
  record db {
    users = insert (λ id. record (created_user given now id) { api_key = digest }) db.users;
  },
)

abbrev is_allowed : User → String → Db → Bool
is_allowed given digest db = not (taken db db.users.next_id given.username digest)

-- A user that `CreateUser` answers, and that is created as active, is the one that its key finds while
-- the tables are as that call left them, unless the database does not answer; ids
-- that are in use differ from the next one.
pub create_user-get_user_by_api_key :
    {e : Env} (given made : User) (w later : World e)
    → All (λ u. (u.id == w.db.users.next_id) ≡ false) w.db.users.rows
    → given.is_active ≡ true
    → (create_user given w).0 ≡ ok made
    → later.db ≡ (create_user given w).1.db
    → (digest : String) × (api_key_digest e given.api_key ≡ ok digest)
      × (((get_user_by_api_key given.api_key later).0 ≡ ok (record made { api_key = digest }))
          ⊎ ((get_user_by_api_key given.api_key later).0 ≡ err unavailable))
unfolding create_user get_user_by_api_key
create_user-get_user_by_api_key {e} given made w later fresh active h same =
    elim (Result-cases (api_key_digest e given.api_key)) [
      | inl (digest, eq) ↦
          let made_by : (exec (is_allowed given digest) (created_db given digest) w).0 ≡ ok made =
            rw eq at h in
          let (allowed, ran) =
            exec-ok (is_allowed given digest) (created_db given digest) w made made_by in
          let row : User = created_user given (e.now (suc w.calls)) w.db.users.next_id in
          let is_made : row ≡ made = ok-inj (sym (ap (λ r. r.0) ran) ∙ made_by) in
          let kept : later.db ≡ (exec (is_allowed given digest) (created_db given digest) w).1.db =
            rw eq at same in
          let tables = kept ∙ ap (λ r. r.1.db) ran in
          let holds : (digest == digest && given.is_active) ≡ true =
            rw (eq_refl digest, active) refl in
          let found =
            ap (λ d. find (λ u. u.api_key == digest && u.is_active) d.users.rows) tables
            ∙ find_new w.db.users.next_id given.username digest (record row { api_key = digest })
                w.db.users.rows fresh (not-true _ allowed) holds
            ∙ ap {A = User} (λ m. some (record m { api_key = digest })) is_made in
          (digest, eq, rw eq (query_row-cases _ later _ found))
      | inr (x, eq) ↦
          absurd (let bad : ◌≡◌ {A = Result Error User} (err x) (ok made) = rw eq at h in cc bad)
    ]
