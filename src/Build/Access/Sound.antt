-- ===== src/Build/Access/Sound.antt =====
-- Whom the checks of handlers/wharf_support.go let through, and the handlers that make them.
use den_kit_stash.Base.{
  ℕ, String, ◌≡◌, refl, subst, Bool, true, false, Option, none, some, find, ◌==◌, number_eq,
}
use den_kit_stash.Model.{User, Game, Upload, Build, can_access_namespace}
use den_kit_stash.World.{Env, World, ok, ◌or_fail◌}
use den_kit_stash.World.Tables.{Db}
use den_kit_stash.World.Laws.{bind-ok, or_fail-ok, query_row-ok, query_row-world}
use den_kit_stash.Database.Projects.{get_upload_by_id, get_game_by_id, joined_game}
use den_kit_stash.Database.Builds.{get_build_by_id, find_build}
use den_kit_stash.Database.Builds.Found.{get_build_by_id-ok, get_build_by_id-db}
use den_kit_stash.Build.Access.{
  allow, validate_namespace_access, authorize_loaded_build_access, authorize_build_access,
  authorized_build,
}

abbrev pub upload_row : Db → ℕ → Option Upload
upload_row db id = find (λ u. u.id == id) db.uploads.rows

-- The user may touch the build: its upload's game belongs to the namespace of an owner that the
-- user can access.
pub record HasAccess (db : Db) (user : Option User) (build : Build) : Type 0 where
  pub visitor : User
  pub is_visitor : user ≡ some visitor
  pub owner : User
  pub game : Game
  pub upload : Upload
  pub has_upload : upload_row db build.upload_id ≡ some upload
  pub has_owner : joined_game db upload.game_id ≡ some (owner, game)
  pub accessible : can_access_namespace visitor owner.username ≡ true

allow-ok : {e : Env} (b : Bool) (w : World e) (u : Unit {0}) → (allow b w).0 ≡ ok u → b ≡ true
allow-ok true w u h = refl
allow-ok false w u h = absurd (cc h)

pub validate-ok :
    {e : Env} (user : User) (namespace : String) (w : World e) (u : Unit {0})
    → (validate_namespace_access user namespace w).0 ≡ ok u
    → can_access_namespace user namespace ≡ true
unfolding validate_namespace_access
validate-ok user namespace w u h = allow-ok (can_access_namespace user namespace) w u h

upload-ok :
    {e : Env} (id : ℕ) (w : World e) (u : Upload)
    → (get_upload_by_id id w).0 ≡ ok u
    → (upload_row w.db id ≡ some u) × ((get_upload_by_id id w).1.db ≡ w.db)
unfolding get_upload_by_id
upload-ok id w u h = (query_row-ok (λ db. upload_row db id) w u h, rw query_row-world)

game-ok :
    {e : Env} (id : ℕ) (w : World e) (r : User × Game)
    → (get_game_by_id id w).0 ≡ ok r
    → joined_game w.db id ≡ some r
unfolding get_game_by_id
game-ok id w r h = query_row-ok (λ db. joined_game db id) w r h

pub authorize_loaded_build_access-HasAccess :
    {e : Env} (user : Option User) (build : Build) (w : World e) (a : Unit {0})
    → (authorize_loaded_build_access user build w).0 ≡ ok a
    → HasAccess w.db user build
unfolding authorize_loaded_build_access validate_namespace_access
authorize_loaded_build_access-HasAccess none build w a h = absurd (cc h)
authorize_loaded_build_access-HasAccess {e} (some visitor) build w a h =
    let (upload, got, h1) = bind-ok (get_upload_by_id build.upload_id) _ w a h in
    let (row, same) = upload-ok build.upload_id w upload got in
    let w1 : World e = (get_upload_by_id build.upload_id w).1 in
    let ((owner, game), got1, h2) = bind-ok (get_game_by_id upload.game_id) _ w1 a h1 in
    record {
      visitor = visitor;
      is_visitor = refl;
      owner = owner;
      game = game;
      upload = upload;
      has_upload = row;
      has_owner =
          subst (λ d. joined_game d upload.game_id ≡ some (owner, game)) same
            (game-ok upload.game_id w1 (owner, game) got1);
      accessible = allow-ok (can_access_namespace visitor owner.username) _ a h2;
    }

-- The build of the id is one that the user may touch.
abbrev pub IsAllowed : Db → Option User → ℕ → Type 0
IsAllowed db user build_id =
    (build : Build) × (find_build db build_id ≡ some build) × HasAccess db user build

pub authorize_build_access-IsAllowed :
    {e : Env} (user : Option User) (id : ℕ) (w : World e) (a : Unit {0})
    → (authorize_build_access user id w).0 ≡ ok a
    → IsAllowed w.db user id
unfolding authorize_build_access
authorize_build_access-IsAllowed user id w a h =
    let (build, got, h1) = bind-ok (get_build_by_id id) _ w a h in
    (
      build,
      (get_build_by_id-ok id w build got).0,
      subst (λ d. HasAccess d user build) (get_build_by_id-db id w)
          (authorize_loaded_build_access-HasAccess user build (get_build_by_id id w).1 a h1),
    )

pub authorized_build-IsAllowed :
    {e : Env} {B : Type 0} (user : Option User) (id : ℕ) (w : World e) (build : Build)
    → (authorized_build {B = B} user id w).0 ≡ ok build
    → IsAllowed w.db user id
authorized_build-IsAllowed user id w build h =
    let (row, got, h1) = bind-ok (get_build_by_id id or_fail _) _ w build h in
    let (u, checked, h2) =
      bind-ok (authorize_loaded_build_access user row or_fail _) _ (get_build_by_id id w).1 build
        h1 in
    let access =
      authorize_loaded_build_access-HasAccess user row _ u
        (or_fail-ok (authorize_loaded_build_access user row) _ _ u checked) in
    (
      row,
      (get_build_by_id-ok id w row (or_fail-ok (get_build_by_id id) _ w row got)).0,
      subst (λ d. HasAccess d user row) (get_build_by_id-db id w) access,
    )
