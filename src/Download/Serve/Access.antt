-- ===== src/Download/Serve/Access.antt =====
-- Who gets a download.
use den_kit_stash.Base.{ℕ, String, Option, some, none, true, ◌≡◌, refl, ◌⊎◌, inl}
use den_kit_stash.Model.{User, can_access_namespace}
use den_kit_stash.Http.{problem}
use den_kit_stash.World.{Env, World}
use den_kit_stash.Build.Access.Guard.{
  IsGuarded, IsRefused, guard_path, guard_build, guard_access, guard_namespace,
}
use den_kit_stash.Download.UpgradePath.{get_upgrade_path}
use den_kit_stash.Download.Serve.{
  Accepts, get_build_file_download, get_build_download_by_type, get_latest_channel_archive,
  latest_in_namespace,
}

-- `GetBuildFileDownload`, `GetBuildDownloadByType` and `GetUpgradePath` refuse a request and change
-- neither a table nor the object store, so rebuild no archive, unless the request names a build (the
-- target, for a path) whose game belongs to a namespace that the user can access.
pub downloads-IsGuarded :
    {e : Env} (user : Option User) (build_id file_id : Option ℕ) (file_type sub_type : String)
    (r : Accepts) (fuel : ℕ) (w : World e)
    → IsGuarded user build_id (get_build_file_download user build_id file_id r) w
      × IsGuarded user build_id (get_build_download_by_type user build_id file_type sub_type r) w
      × IsGuarded user build_id (get_upgrade_path fuel user file_id build_id) w
unfolding get_build_file_download get_build_download_by_type get_upgrade_path
downloads-IsGuarded user build_id file_id file_type sub_type r fuel w = (
  guard_path _ build_id _ _ w λ id named.
      guard_path _ file_id _ _ w λ file named_file. guard_build user build_id id _ w named,
  guard_path _ build_id _ _ w λ id named. guard_access user build_id id _ _ w named,
  guard_path _ file_id _ _ w λ installed named_installed.
      guard_path _ build_id _ _ w λ id named. guard_access user build_id id _ _ w named,
)

-- `GetLatestChannelArchive` refuses a request and changes neither a table nor the object store, so
-- rebuilds no archive, unless a user asks who can access the namespace.
pub latest_channel_archive_guarded :
    {e : Env} (user : Option User) (namespace game channel : String) (r : Accepts) (w : World e)
    → IsRefused (get_latest_channel_archive user namespace game channel r) w
      ⊎ ((u : User) × (user ≡ some u) × (can_access_namespace u namespace ≡ true))
unfolding get_latest_channel_archive
latest_channel_archive_guarded none namespace game channel r w =
    inl (_, refl, record { tables = refl; stored = refl })
latest_channel_archive_guarded (some u) namespace game channel r w =
    guard_namespace _ u namespace (problem 403 "access denied")
      (λ _. latest_in_namespace namespace game channel r) w λ allowed. (u, refl, allowed)
