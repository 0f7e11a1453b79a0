-- ===== src/Download/UpgradePath.antt =====
-- `resolveUpgradePath` and `GetUpgradePath` of handlers/wharf_downloads.go.
pub mod Path
pub mod Fuel
use den_kit_stash.Base.{
  ℕ, zero, suc, Bool, true, false, not, ◌&&◌, ◌==◌, number_eq, text_eq, Option, none, some, List,
  [], ◌∷◌,
}
use den_kit_stash.Model.{User, Build}
use den_kit_stash.World.{Env, Action, Error, failure, ◌>>=◌, ◌>>◌, pure, raise, ◌or_fail◌}
use den_kit_stash.Http.{Response, Handler, json, problem}
use den_kit_stash.Database.Builds.{get_build_by_id}
use den_kit_stash.Database.Files.{get_build_files_by_build_id}
use den_kit_stash.Archive.Files.{find_build_file}
use den_kit_stash.Serialize.{WharfBuildResponse, new_wharf_build_response}
use den_kit_stash.Build.Access.{path_int, authorize_build_access, build_access_error}

-- The upload and the channel are those of the target.
abbrev pub same_channel : Build → Build → Bool
same_channel target parent =
    parent.upload_id == target.upload_id && parent.channel_name == target.channel_name

abbrev pub tail : List Build → List Build
tail [] = []
tail (b ∷ bs) = bs

module _ {e : Env} where
  abbrev require_same : Bool → Action e Error (Unit {0})
  require_same true = pure tt
  require_same false = raise (failure "upgrade path crosses upload or channel")

  -- The walk from the target to the installed build. The list is the path so far, the build that was
  -- reached first; so it stands in the order that the source makes by turning its path round. The
  -- source sets no limit on the walk: the first number is the fuel.
  unfoldable pub walk_back : ℕ → ℕ → Build → Build → List Build → Action e Error (List Build)
  walk_back zero installed_id target current path = raise (failure "out of fuel")
  walk_back (suc fuel) installed_id target current path = elim (current.id == installed_id) [
    | true ↦ pure path
    | false ↦ elim current.parent_build_id [
      | none ↦ raise (failure "no parent build")
      | some parent_id ↦ do
        parent ← get_build_by_id parent_id
        require_same (same_channel target parent)
        walk_back fuel installed_id target parent (parent ∷ path)
    ]
  ]

  unfoldable pub require_patches : List Build → Action e Error (Unit {0})
  require_patches [] = pure tt
  require_patches (build ∷ rest) = do
    find_build_file build.id "patch" "default"
    require_patches rest

  -- resolveUpgradePath
  unfoldable pub resolve_upgrade_path : ℕ → ℕ → ℕ → Action e Error (List Build)
  resolve_upgrade_path fuel installed_id target_id = do
    target ← get_build_by_id target_id
    path ← walk_back fuel installed_id target target (target ∷ [])
    require_patches (tail path)
    pure path

  -- The builds of the path, with their files.
  unfoldable pub with_files :
      List Build → Handler e (List WharfBuildResponse) (List WharfBuildResponse)
  with_files [] = pure []
  with_files (build ∷ rest) = do
    files ← get_build_files_by_build_id build.id or_fail problem 500 "failed to load build files"
    others ← with_files rest
    pure (new_wharf_build_response e build files ∷ others)

  -- GetUpgradePath
  unfoldable pub get_upgrade_path :
      ℕ
      → Option User
      → Option ℕ
      → Option ℕ
      → Handler e (List WharfBuildResponse) (Response (List WharfBuildResponse))
  get_upgrade_path fuel user installed target = do
    installed_id ← path_int installed "invalid installed build id"
    target_id ← path_int target "invalid target build id"
    authorize_build_access user target_id or_fail build_access_error user
    builds ←
        resolve_upgrade_path fuel installed_id target_id
        or_fail problem 404 "upgrade path not found"
    listed ← with_files builds
    pure (json listed)
