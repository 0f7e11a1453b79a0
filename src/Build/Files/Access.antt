-- ===== src/Build/Files/Access.antt =====
-- Who may list, add and finalize the files of a build.
use den_kit_stash.Base.{ℕ, Option}
use den_kit_stash.Model.{User}
use den_kit_stash.World.{Env, World}
use den_kit_stash.Build.Access.{Decoded}
use den_kit_stash.Build.Access.Guard.{IsGuarded, guard_path, guard_build}
use den_kit_stash.Build.Files.{
  Origin, CreateBuildFileRequest, get_build_files, create_build_file_handler, finalize_build_file,
}

-- `GetBuildFiles`, `CreateBuildFile` and `FinalizeBuildFile` refuse a request and change neither a table
-- nor the object store, unless the request names a build whose game belongs to a namespace that the
-- user can access.
pub build_files-IsGuarded :
    {e : Env} (user : Option User) (build_id file_id : Option ℕ) (origin : Origin)
    (body : Decoded CreateBuildFileRequest) (size : Decoded ℕ) (w : World e)
    → IsGuarded user build_id (get_build_files user build_id) w
      × IsGuarded user build_id (create_build_file_handler user build_id origin body) w
      × IsGuarded user build_id (finalize_build_file user build_id file_id size) w
unfolding get_build_files create_build_file_handler finalize_build_file
build_files-IsGuarded user build_id file_id origin body size w = (
  guard_path _ build_id _ _ w λ id named. guard_build user build_id id _ w named,
  guard_path _ build_id _ _ w λ id named. guard_build user build_id id _ w named,
  guard_path _ build_id _ _ w λ id named.
      guard_path _ file_id _ _ w λ file named_file. guard_build user build_id id _ w named,
)
