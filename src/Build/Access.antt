-- ===== src/Build/Access.antt =====
-- Who may touch a build: `validateNamespaceAccess`, `authorizeLoadedBuildAccess` and
-- `writeBuildAccessError` of handlers/wharf_support.go, and `decodeJSONOrFormRequest`.
pub mod Sound
pub mod Guard
use den_kit_stash.Base.{ℕ, String, Bool, true, false, Option, none, some}
use den_kit_stash.Model.{User, Build, can_access_namespace}
use den_kit_stash.World.{Env, Action, Error, failure, ◌>>=◌, ◌>>◌, pure, raise, ◌or_fail◌}
use den_kit_stash.Http.{Response, Handler, problem}
use den_kit_stash.Database.Projects.{get_upload_by_id, get_game_by_id}
use den_kit_stash.Database.Builds.{get_build_by_id}

-- What `decodeJSONOrFormRequest` makes of a body.
pub data Decoded (R : Type 0) : Type 0 where
  decoded : R → Decoded R
  too_large unreadable : Decoded R
  malformed : String → Decoded R

module _ {e : Env} where
  abbrev allow : Bool → Action e Error (Unit {0})
  allow true = pure tt
  allow false = raise (failure "access denied")

  -- validateNamespaceAccess
  unfoldable pub validate_namespace_access : User → String → Action e Error (Unit {0})
  validate_namespace_access user namespace = allow (can_access_namespace user namespace)

  -- authorizeLoadedBuildAccess
  unfoldable pub authorize_loaded_build_access : Option User → Build → Action e Error (Unit {0})
  unfolding validate_namespace_access
  authorize_loaded_build_access none build = raise (failure "authentication required")
  authorize_loaded_build_access (some user) build = do
    upload ← get_upload_by_id build.upload_id
    found ← get_game_by_id upload.game_id
    validate_namespace_access user (found.0).username

  -- authorizeBuildAccess
  unfoldable pub authorize_build_access : Option User → ℕ → Action e Error (Unit {0})
  authorize_build_access user build_id = do
    build ← get_build_by_id build_id
    authorize_loaded_build_access user build

-- writeBuildAccessError
unfoldable pub build_access_error : {B : Type 0} → Option User → Response B
build_access_error none = problem 401 "missing api_key"
build_access_error (some user) = problem 403 "access denied"

module _ {e : Env} {B R : Type 0} where
  -- decodeJSONOrFormRequest
  unfoldable pub decode_request : Decoded R → Handler e B R
  decode_request (decoded r) = pure r
  decode_request too_large = raise (problem 413 "request body too large")
  decode_request unreadable = raise (problem 400 "could not read request body")
  decode_request (malformed message) = raise (problem 400 message)

module _ {e : Env} {B : Type 0} where
  -- pathInt64: a path parameter that is a number
  abbrev pub path_int : Option ℕ → String → Handler e B ℕ
  path_int none message = raise (problem 400 message)
  path_int (some n) message = pure n

  -- The answer, unless the test holds.
  abbrev pub refuse_if : Bool → Response B → Handler e B (Unit {0})
  refuse_if true answer = raise answer
  refuse_if false answer = pure tt

  -- The build of the path, if the user may touch it.
  abbrev pub authorized_build : Option User → ℕ → Handler e B Build
  authorized_build user build_id = do
    build ← get_build_by_id build_id or_fail problem 404 "build not found"
    authorize_loaded_build_access user build or_fail build_access_error user
    pure build
