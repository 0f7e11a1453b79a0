-- ===== src/Scenarios/Access.antt =====
-- The theorems on who may do what, at concrete requests.
use den_kit_stash.Base.{none, ℕ, ◌⊎◌, ◌≡◌, true, some, [], ◌∷◌, codes, false}
use den_kit_stash.Model.{FileState, User, BuildFile, can_access_namespace}
use den_kit_stash.Build.Access.{decoded}
use den_kit_stash.Build.Access.Guard.{IsGuarded, IsRefused}
use den_kit_stash.Build.Files.{
  Origin, CreateBuildFileRequest, get_build_files, create_build_file_handler, finalize_build_file,
}
use den_kit_stash.Build.Files.Access.{build_files-IsGuarded}
use den_kit_stash.Build.Create.{CreateBuildRequest, create_build_handler}
use den_kit_stash.Build.Create.Access.{IsOwnTarget, create_build_handler-IsOwnTarget}
use den_kit_stash.Listing.Target.{resolve_target_game}
use den_kit_stash.Download.Serve.{
  Accepts, get_build_file_download, get_build_download_by_type, get_latest_channel_archive,
}
use den_kit_stash.Download.Serve.Access.{downloads-IsGuarded, latest_channel_archive_guarded}
use den_kit_stash.Download.UpgradePath.{get_upgrade_path}
use den_kit_stash.Download.Filename.{download_filename}
use den_kit_stash.Download.Filename.Safe.{IsNamed, download_filename-IsNamed}
use den_kit_stash.Scenarios.Stash.{stash_user, test_user, game_world}

abbrev origin : Origin
origin = record { tls = false; forwarded_proto = []; host = codes "localhost" }

abbrev patch_request : CreateBuildFileRequest
patch_request = record { type = "patch"; sub_type = "default"; upload_type = "simple" }

-- A user who has no access to the game.
build_files-IsGuarded_example :
    IsGuarded (some stash_user) (some 1) (get_build_files (some stash_user) (some 1)) game_world
    × IsGuarded
        (some stash_user)
        (some 1)
        (create_build_file_handler (some stash_user) (some 1) origin (decoded patch_request))
        game_world
    × IsGuarded
        (some stash_user)
        (some 1)
        (finalize_build_file (some stash_user) (some 1) (some 1) (decoded 3))
        game_world
build_files-IsGuarded_example =
    build_files-IsGuarded (some stash_user) (some 1) (some 1) origin (decoded patch_request)
      (decoded 3) game_world

abbrev browser : Accepts
browser = record { accept = codes "text/html"; json_query = "" }

downloads-IsGuarded_example :
    IsGuarded
      (some test_user)
      (some 1)
      (get_build_file_download (some test_user) (some 1) (some 1) browser)
      game_world
    × IsGuarded
        (some test_user)
        (some 1)
        (get_build_download_by_type (some test_user) (some 1) "archive" "default" browser)
        game_world
    × IsGuarded
        (some test_user)
        (some 1)
        (get_upgrade_path 5 (some test_user) (some 1) (some 1))
        game_world
downloads-IsGuarded_example =
    downloads-IsGuarded (some test_user) (some 1) (some 1) "archive" "default" browser 5 game_world

latest_channel_archive_guarded_example :
    IsRefused
      (get_latest_channel_archive (some test_user) "testuser" "game" "linux" browser)
      game_world
    ⊎ ((u : User) × (some test_user ≡ some u) × (can_access_namespace u "testuser" ≡ true))
latest_channel_archive_guarded_example =
    latest_channel_archive_guarded (some test_user) "testuser" "game" "linux" browser game_world

abbrev archive_file : BuildFile
archive_file = record {
  id = 1;
  build_id = 1;
  type = "archive";
  sub_type = "default";
  size = 2;
  state = FileState.uploaded;
  storage_path = codes "archives/1.zip";
  upload_url = [];
  last_accessed_at = 0;
  evicted_at = none;
  created_at = 0;
  updated_at = 0;
}

download_filename-IsNamed_example :
    IsNamed {B = ℕ} archive_file (download_filename archive_file) game_world
download_filename-IsNamed_example = download_filename-IsNamed archive_file game_world

abbrev push : CreateBuildRequest
push = record { target = "testuser" ∷ "game" ∷ []; channel = "linux"; user_version = "2.0" }

create_build_handler-IsOwnTarget_example :
    (IsRefused (create_build_handler test_user (decoded push)) game_world
      ⊎ IsOwnTarget test_user push.target)
    × (IsRefused (resolve_target_game {B = ℕ} test_user push.target) game_world
        ⊎ IsOwnTarget test_user push.target)
create_build_handler-IsOwnTarget_example =
    create_build_handler-IsOwnTarget test_user push game_world
