-- ===== src/Auth/Deactivated.antt =====
-- A user who is deactivated is let in no more.
use den_kit_stash.Base.{
  ℕ, suc, String, ◌≡◌, ◌≢◌, refl, sym, ap, ◌∙◌, ◌⊎◌, inl, inr, Bool, true, false, not, ◌&&◌, ◌==◌,
  number_eq, text_eq, some, List, [], ◌∷◌, All, find, find-passes, find-All, and_true, eq_refl,
  eq_of_true, if◌then◌else◌, Bool-cases, subst,
}
use den_kit_stash.World.Order.{All-weaken}
use den_kit_stash.Model.{User}
use den_kit_stash.World.{Env, World, Action, Error, failure, ok, ◌or_fail◌, lift, exec, query_row}
use den_kit_stash.World.Tables.{Db, modify, modify_rows}
use den_kit_stash.World.Laws.{
  Result-cases, exec-ok, bind-ok, bind-run, or_fail-ok, query_row-ok, query_row-world, ticked,
}
use den_kit_stash.Database.Users.{
  get_user_by_api_key, get_user_by_username, update_user, api_key_digest, taken, is_allowed_role,
}
use den_kit_stash.Database.Integrity.{IsValid, IsUnique, same_user}
use den_kit_stash.Auth.Management.{set_user_active, same, toggle}

-- No row is an active user of the name.
abbrev IsShut : String → List User → Type 0
IsShut name rows = All (λ u. (u.username == name && u.is_active) ≡ false) rows

and_false : (b : Bool) → (b && false) ≡ false
and_false true = refl
and_false false = refl

-- Behind a row of a name no other row has the name.
others :
    (name : String) (u : User) (rows : List User)
    → (u.username == name) ≡ true
    → All (λ s. same_user u s ≡ false) rows
    → All (λ s. (s.username == name) ≡ false) rows
others name u [] h k = tt
others name u (s ∷ rows) h (free, k) = (
  elim (Bool-cases (s.username == name)) [
    | inr other ↦ other
    | inl hit ↦
        let one : u.username ≡ name = eq_of_true u.username name h in
        let two : s.username ≡ name = eq_of_true s.username name hit in
        absurd (let bad = rw (one, two, eq_refl name) at free in cc bad)
  ],
  others name u rows h k,
)

-- The one row of the name is the one that is found.
only :
    (name : String) (rows : List User) (u : User)
    → IsUnique same_user rows
    → find (λ s. s.username == name) rows ≡ some u
    → All (λ s. ((s.username == name) ≡ false) ⊎ (s ≡ u)) rows
only name [] u unique h = absurd (cc h)
only name (r ∷ rows) u (free, unique) h = elim (Bool-cases (r.username == name)) [
  | inl hit ↦
      let here : r ≡ u = (let h' = rw hit at h in cc h') in
      (inr here, All-weaken _ _ rows (λ s k. inl k) (others name r rows hit free))
  | inr miss ↦ (inl miss, only name rows u unique (rw miss at h))
]

-- Where the row is inactive, and where an UPDATE makes it so.
IsShut-found :
    (name : String) (rows : List User) (u : User)
    → All (λ s. ((s.username == name) ≡ false) ⊎ (s ≡ u)) rows
    → u.is_active ≡ false
    → IsShut name rows
IsShut-found name rows u h off = All-weaken _ _ rows one h
  where
    one :
        (s : User)
        → ((s.username == name) ≡ false) ⊎ (s ≡ u)
        → (s.username == name && s.is_active) ≡ false
    one s (inl other) = rw other refl
    one s (inr here) = rw (here, off) (and_false (u.username == name))

IsShut-modified :
    (name : String) (rows : List User) (u : User) (f : User → User)
    → ((s : User) → (f s).is_active ≡ false)
    → All (λ s. ((s.username == name) ≡ false) ⊎ (s ≡ u)) rows
    → IsShut name (modify_rows (λ s. s.id == u.id) f rows)
IsShut-modified name [] u f off h = tt
IsShut-modified name (r ∷ rows) u f off (h, hs) =
    (one h (r.id == u.id) refl, IsShut-modified name rows u f off hs)
  where
    one :
        ((r.username == name) ≡ false) ⊎ (r ≡ u)
        → (b : Bool) → (r.id == u.id) ≡ b
        → ((if b then f r else r).username == name && (if b then f r else r).is_active) ≡ false
    one h true eq = rw off (and_false ((f r).username == name))
    one (inl other) false eq = rw other refl
    one (inr here) false eq = absurd (cc (eq, here, eq_refl u.id))

-- A key finds no user of a name that is shut.
shut_key :
    {e : Env} (name key : String) (w : World e) (u : User)
    → IsShut name w.db.users.rows
    → (get_user_by_api_key key w).0 ≡ ok u
    → u.username ≢ name
unfolding get_user_by_api_key
shut_key {e} name key w u shut h same_name =
    let (digest, _, found) =
      bind-ok (lift (api_key_digest e key))
        (λ digest. query_row (λ db. find (λ v. v.api_key == digest && v.is_active) db.users.rows)) w
        u h in
    let row =
      query_row-ok (λ db. find (λ v. v.api_key == digest && v.is_active) db.users.rows) w u found in
    let (_, active) =
      and_true (u.api_key == digest) u.is_active (find-passes _ w.db.users.rows u row) in
    let off = find-All _ _ w.db.users.rows u shut row in
    absurd (let bad = rw (same_name, eq_refl name, active) at off in cc bad)

IsShut-after :
    {e : Env} (name : String) (w : World e) (u : User)
    → All (λ s. ((s.username == name) ≡ false) ⊎ (s ≡ u)) w.db.users.rows
    → (t : Bool) → same u.is_active false ≡ t
    → (toggle t u false w).0 ≡ ok tt
    → IsShut name (toggle t u false w).1.db.users.rows
unfolding update_user
IsShut-after name w u one true off h =
    IsShut-found name w.db.users.rows u one (is_off u.is_active off)
  where
    is_off : (b : Bool) → same b false ≡ true → b ≡ false
    is_off true k = absurd (cc k)
    is_off false k = refl
IsShut-after {e} name w u one false on h = elim (Result-cases (api_key_digest e u.api_key)) [
  | inr (x, no_digest) ↦ absurd (let h' = rw no_digest at h in cc h')
  | inl (digest, found) ↦
      let made : (exec (allowed digest) (written digest) w).0 ≡ ok tt =
        or_fail-ok (exec (allowed digest) (written digest)) (failure "failed to update user") w tt
          (rw found at h) in
      let (_, ran) = exec-ok (allowed digest) (written digest) w tt made in
      rw (found, ran)
        (IsShut-modified name w.db.users.rows u (shut digest (e.now (suc w.calls))) (λ s. refl) one)
]
  where
    shut : String → ℕ → User → User
    shut digest now s = record s {
      username = u.username;
      display_name = u.display_name;
      api_key = digest;
      role = u.role;
      is_active = false;
      updated_at = now;
    }

    allowed : String → Db → Bool
    allowed digest db = is_allowed_role u.role && not (taken db u.id u.username digest)

    written : String → ℕ → Db → Unit {0} × Db
    written digest now db =
        (tt, record db { users = modify (λ s. s.id == u.id) (shut digest now) db.users })

-- Once `DeactivateUser` has succeeded on valid tables, and while the tables are as it left them, no key
-- finds a user of that name.
pub set_user_active_shut :
    {e : Env} (name key : String) (w later : World e) (u : User)
    → IsValid w.db
    → (set_user_active name false w).0 ≡ ok tt
    → later.db ≡ (set_user_active name false w).1.db
    → (get_user_by_api_key key later).0 ≡ ok u
    → u.username ≢ name
unfolding set_user_active get_user_by_username
set_user_active_shut {e} name key w later u valid done same_db h =
    let search : Action e Error User =
      query_row (λ db. find (λ s. s.username == name) db.users.rows) in
    let (v, got, h1) =
      bind-ok (search or_fail failure "user not found")
        (λ v. toggle (same v.is_active false) v false) w tt done in
    let row =
      query_row-ok (λ db. find (λ s. s.username == name) db.users.rows) w v
        (or_fail-ok search _ w v got) in
    let one = only name w.db.users.rows v valid.unique_users row in
    let w1 : World e = (search w).1 in
    let here : w1 ≡ ticked w = query_row-world _ w in
    let shut : IsShut name (toggle (same v.is_active false) v false w1).1.db.users.rows =
      IsShut-after name w1 v
        (subst (λ x. All (λ s. ((s.username == name) ≡ false) ⊎ (s ≡ v)) x.db.users.rows) (sym here)
          one)
        (same v.is_active false) refl h1 in
    let end : later.db ≡ (toggle (same v.is_active false) v false w1).1.db =
      same_db
      ∙ ap (λ r. r.1.db)
          (bind-run (search or_fail failure "user not found")
            (λ v. toggle (same v.is_active false) v false) w v got) in
    shut_key name key later u (subst (λ db. IsShut name db.users.rows) (sym end) shut) h
