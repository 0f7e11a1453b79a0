-- ===== src/Scenarios/Settings.antt =====
-- The theorems on the process at a concrete environment.
use Prim.Native.String.{◌++◌}
use den_kit_stash.Base.{◌≢◌, ◌∷◌, ℕ, ◌≡◌, refl, ◌⊎◌, String, true, false, Option, some, [], arith}
use den_kit_stash.Model.{User}
use den_kit_stash.World.{World, err}
use den_kit_stash.Http.{problem, respond}
use den_kit_stash.Process.Settings.{
  Parsers, archive_gc_config_from_env, new_http_server, max_request_body_bytes,
  max_upload_session_bytes,
}
use den_kit_stash.Process.Settings.Bounds.{IsPositive, settings-IsPositive}
use den_kit_stash.World.{query_row, exec, call}
use den_kit_stash.World.Tables.{empty_db}
use den_kit_stash.Database.Users.{
  get_user_by_username, update_user, get_user_by_api_key, api_key_digest,
}
use den_kit_stash.Database.Integrity.{IsValid}
use den_kit_stash.Auth.Management.{set_user_active}
use den_kit_stash.Auth.Deactivated.{set_user_active_shut}
use den_kit_stash.Process.Storage.{StorageConfig, read_storage_config}
use den_kit_stash.Process.Storage.Complete.{IsEnvironment, read_storage_config_complete}
use den_kit_stash.Process.Oauth.{Urls, is_loopback, authorize, dev_oauth_handler}
use den_kit_stash.Process.Oauth.Safety.{dev_oauth_handler_local, dev_oauth_handler_again}
use den_kit_stash.Scenarios.Stash.{stash_env, stash, stash_user, test_user, rows, game_world}
use den_kit_stash.Scenarios.Uploads.{game_db-IsValid}

-- Every text is the number 5.
abbrev fives : Parsers
fives = record { parse_int = λ s. some 5; atoi = λ s. some 5; parse_duration = λ s. some 5 }

settings-IsPositive_example :
    let cfg = archive_gc_config_from_env stash_env fives in
    let server = new_http_server stash_env fives in
    IsPositive cfg.ttl
    × IsPositive cfg.interval
    × IsPositive cfg.batch_limit
    × IsPositive server.read_header
    × IsPositive server.read
    × IsPositive server.write
    × IsPositive server.idle
    × IsPositive (max_request_body_bytes stash_env fives)
    × IsPositive (max_upload_session_bytes stash_env fives)
settings-IsPositive_example = settings-IsPositive stash_env fives

abbrev stash_storage : StorageConfig
stash_storage = record {
  endpoint = "secret";
  public_endpoint = "secret";
  access_key = "secret";
  secret_key = "secret";
  bucket_name = "secret";
  region = "secret";
  use_ssl = true;
}

read_storage_config_complete_example : IsEnvironment stash_env stash_storage
unfolding read_storage_config
read_storage_config_complete_example =
    read_storage_config_complete stash_env (λ s. some true) stash_storage refl

-- A URL is its text, of this machine.
abbrev local_urls : Urls
local_urls = record {
  Url = String;
  parse = λ s. some s;
  scheme = λ u. "http";
  hostname = λ u. "localhost";
  render_with_fragment = λ u s. u ++ ("#" ++ s);
}

dev_oauth_handler_local_example :
    ((n : ℕ) × (message : String) × (dev_oauth_handler local_urls {B = ℕ} "butler"
          "http://localhost/" stash
        ≡ (err (problem n message), stash)))
    ⊎ ((◌≡◌ {A = String} "butler" "butler")
        × (url : String) × (◌≡◌ {A = Option String} (some "http://localhost/") (some url))
        × (local_urls.scheme url ≡ "http")
        × (is_loopback local_urls url ≡ true)
        × (dev_oauth_handler local_urls {B = ℕ} "butler" "http://localhost/" stash
            ≡ authorize local_urls url stash))
dev_oauth_handler_local_example =
    dev_oauth_handler_local local_urls {B = ℕ} "butler" "http://localhost/" stash

dev_oauth_handler_again_example :
    let r =
      respond (dev_oauth_handler local_urls {B = ℕ} "butler" "http://localhost/") game_world in
    ((n : ℕ) × (message : String) × (r.0 ≡ problem n message)) × (r.1.db ≡ game_world.db)
dev_oauth_handler_again_example =
    dev_oauth_handler_again local_urls {B = ℕ} "butler" "http://localhost/" game_world
      game_db-IsValid refl

-- Two users, of whom one is deactivated.
abbrev bob : User
bob = record stash_user { id = 2; username = "bob" }

abbrev two_users : World stash_env
two_users = record stash {
  db = record empty_db { users = rows (record test_user { api_key = "hmac-sha256:0" } ∷ bob ∷ []) };
}

two_users-IsValid : IsValid two_users.db
two_users-IsValid = record {
  user_keys = (omega arith, (omega arith, omega arith));
  game_keys = omega arith;
  upload_keys = omega arith;
  build_keys = omega arith;
  file_keys = omega arith;
  channel_keys = omega arith;
  unique_users = ((refl, tt), (tt, tt));
  unique_channels = tt;
  unique_sessions = tt;
  game_users = tt;
  upload_games = tt;
  build_uploads = tt;
  build_parents = tt;
  file_builds = tt;
  channel_uploads = tt;
  session_files = tt;
}

set_user_active_shut_example : bob.username ≢ "testuser"
unfolding set_user_active get_user_by_username update_user get_user_by_api_key api_key_digest
    query_row exec call
set_user_active_shut_example =
    set_user_active_shut "testuser" "hmac-sha256:5ec2e7" two_users
      (set_user_active "testuser" false two_users).1 bob two_users-IsValid refl refl refl
