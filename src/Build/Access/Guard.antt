-- ===== src/Build/Access/Guard.antt =====
-- Handlers that check who asks before they do anything.
use den_kit_stash.Base.{
  ℕ, Bool, true, false, String, ◌≡◌, refl, ◌⊎◌, inl, inr, Option, none, some, ap,
}
use den_kit_stash.Model.{User, Build, can_access_namespace}
use den_kit_stash.World.{Env, World, ok, err, ◌>>=◌, ◌or_fail◌, lift, from_option}
use den_kit_stash.World.Tables.{Db}
use den_kit_stash.World.Keeps.{Keeps, keeps_rules, Keeps-raise, Keeps-pure, Keeps-or_fail}
use den_kit_stash.World.Reads.{Untouched, Untouched-query_row}
use den_kit_stash.World.Laws.{Result-cases, bind-err, or_fail-ok}
use den_kit_stash.Database.Projects.{get_upload_by_id, get_game_by_id}
use den_kit_stash.Database.Builds.Found.{Untouched-get_build}
use den_kit_stash.Http.{Response, Handler}
use den_kit_stash.Build.Access.{
  allow, validate_namespace_access, authorize_loaded_build_access, authorize_build_access,
  authorized_build, path_int, refuse_if,
}
use den_kit_stash.Build.Access.Sound.{
  IsAllowed, authorize_build_access-IsAllowed, authorized_build-IsAllowed, validate-ok,
}

-- An early answer, and nothing has changed.
abbrev pub IsRefused : {e : Env} {B A : Type 0} → Handler e B A → World e → Type 0
IsRefused {e} {B} m w = (x : Response B) × ((m w).0 ≡ err x) × Untouched w.db w.objects (m w).1

-- The request is refused, or it names a build that the user may touch.
abbrev pub IsGuarded :
    {e : Env} {B A : Type 0} → Option User → Option ℕ → Handler e B A → World e → Type 0
IsGuarded user path m w = IsRefused m w ⊎ ((id : ℕ) × (path ≡ some id) × IsAllowed w.db user id)

module _ {e : Env} {db : Db} {objects : e.Objects} where
  Untouched-upload : (id : ℕ) → Keeps (Untouched {e = e} db objects) (get_upload_by_id id)
  unfolding get_upload_by_id
  Untouched-upload id = Untouched-query_row _

  Untouched-game : (id : ℕ) → Keeps (Untouched {e = e} db objects) (get_game_by_id id)
  unfolding get_game_by_id
  Untouched-game id = Untouched-query_row _

  Untouched-allow : (b : Bool) → Keeps (Untouched {e = e} db objects) (allow b)
  Untouched-allow true = Keeps-pure tt
  Untouched-allow false = Keeps-raise _

  Untouched-validate :
      (user : User) (namespace : String)
      → Keeps (Untouched {e = e} db objects) (validate_namespace_access user namespace)
  unfolding validate_namespace_access
  Untouched-validate user namespace = Untouched-allow (can_access_namespace user namespace)

  Untouched-authorize_loaded :
      (user : Option User) (build : Build)
      → Keeps (Untouched {e = e} db objects) (authorize_loaded_build_access user build)
  unfolding authorize_loaded_build_access
  Untouched-authorize_loaded none build = Keeps-raise _
  Untouched-authorize_loaded (some user) build =
      search (keeps_rules, Untouched-upload, Untouched-game, Untouched-validate)

  Untouched-authorize :
      (user : Option User) (id : ℕ)
      → Keeps (Untouched {e = e} db objects) (authorize_build_access user id)
  unfolding authorize_build_access
  Untouched-authorize user id =
      search (keeps_rules, Untouched-get_build, Untouched-authorize_loaded)

  Untouched-authorized_build :
      {B : Type 0} (user : Option User) (id : ℕ)
      → Keeps {E = Response B} (Untouched {e = e} db objects) (authorized_build user id)
  Untouched-authorized_build user id =
      search (keeps_rules, Untouched-get_build, Untouched-authorize_loaded)

module _ {e : Env} {B A : Type 0} where
  pub guard_path :
      (X : Type 0) (id : Option ℕ) (message : String) (f : ℕ → Handler e B A) (w : World e)
      → ((n : ℕ) → id ≡ some n → IsRefused (f n) w ⊎ X)
      → IsRefused (path_int id message >>= f) w ⊎ X
  guard_path X none message f w k = inl (_, refl, record { tables = refl; stored = refl })
  guard_path X (some n) message f w k = k n refl

  -- An action that only reads, and whose success is what is to be known.
  guard_bind :
      {C : Type 0} (X : Type 0) (m : Handler e B C) (f : C → Handler e B A) (w : World e)
      → Keeps (Untouched w.db w.objects) m
      → ((a : C) → (m w).0 ≡ ok a → X)
      → IsRefused (m >>= f) w ⊎ X
  guard_bind X m f w keeps k = elim (Result-cases (m w).0) [
    | inl (a, eq) ↦ inr (k a eq)
    | inr (x, eq) ↦
        let stopped = bind-err m f w x eq in
        inl (
          x,
          ap (λ r. r.0) stopped,
          rw stopped (keeps.at w (record { tables = refl; stored = refl })),
        )
  ]

  pub guard_build :
      (user : Option User) (path : Option ℕ) (id : ℕ) (f : Build → Handler e B A) (w : World e)
      → path ≡ some id
      → IsGuarded user path (authorized_build user id >>= f) w
  guard_build user path id f w named =
      guard_bind _ (authorized_build user id) f w (Untouched-authorized_build user id)
        λ build passed. (id, named, authorized_build-IsAllowed user id w build passed)

  pub guard_access :
      (user : Option User) (path : Option ℕ) (id : ℕ) (x : Response B)
      (f : Unit {0} → Handler e B A) (w : World e)
      → path ≡ some id
      → IsGuarded user path (authorize_build_access user id or_fail x >>= f) w
  guard_access user path id x f w named =
      guard_bind _ (authorize_build_access user id or_fail x) f w
        (Keeps-or_fail _ _ (Untouched-authorize user id))
        λ u passed. (
          id,
          named,
          authorize_build_access-IsAllowed user id w u
              (or_fail-ok (authorize_build_access user id) x w u passed),
        )

  -- The same for an answer that a test gives, and for a check of the namespace.
  pub guard_refuse :
      (X : Type 0) (t : Bool) (x : Response B) (f : Unit {0} → Handler e B A) (w : World e)
      → IsRefused (f tt) w ⊎ X
      → IsRefused (refuse_if t x >>= f) w ⊎ X
  guard_refuse X true x f w k = inl (x, refl, record { tables = refl; stored = refl })
  guard_refuse X false x f w k = k

  pub guard_option :
      {C : Type 0} (X : Type 0) (o : Option C) (x : Response B) (f : C → Handler e B A)
      (w : World e)
      → ((c : C) → o ≡ some c → IsRefused (f c) w ⊎ X)
      → IsRefused (lift (from_option x o) >>= f) w ⊎ X
  guard_option X none x f w k = inl (x, refl, record { tables = refl; stored = refl })
  guard_option X (some c) x f w k = k c refl

  pub guard_namespace :
      (X : Type 0) (user : User) (namespace : String) (x : Response B)
      (f : Unit {0} → Handler e B A) (w : World e)
      → (can_access_namespace user namespace ≡ true → X)
      → IsRefused (validate_namespace_access user namespace or_fail x >>= f) w ⊎ X
  guard_namespace X user namespace x f w k =
      guard_bind X (validate_namespace_access user namespace or_fail x) f w
        (Keeps-or_fail _ _ (Untouched-validate user namespace))
        λ u passed. k (
          validate-ok user namespace w u
            (or_fail-ok (validate_namespace_access user namespace) x w u passed))

  -- A guard of what comes first guards the whole.
  pub guard_first :
      {C : Type 0} (X : Type 0) (m : Handler e B C) (f : C → Handler e B A) (w : World e)
      → IsRefused m w ⊎ X
      → IsRefused (m >>= f) w ⊎ X
  guard_first X m f w (inr k) = inr k
  guard_first X m f w (inl (x, eq, u)) =
      let stopped = bind-err m f w x eq in inl (x, ap (λ r. r.0) stopped, rw stopped u)
