-- ===== src/Database/Integrity/Keeps.antt =====
-- A table that is replaced by one that keeps its own clauses, and what the other tables refer to.
use den_kit_stash.Base.{ℕ, ◌≡◌, true, All}
use den_kit_stash.Model.{User, Game, Upload, Build, BuildFile, Channel, UploadSession}
use den_kit_stash.World.Tables.{Db, Table}
use den_kit_stash.Database.Projects.{has_user, has_game}
use den_kit_stash.Database.Builds.{has_upload, has_build, refers}
use den_kit_stash.Database.Sessions.{has_build_file}
use den_kit_stash.Database.Integrity.{
  HasKeys, IsUnique, same_user, same_channel, same_session, IsValid,
}
use den_kit_stash.Database.Integrity.Rows.{All-map}

module _ (db : Db) (h : IsValid db) where
  pub users-IsValid :
      (t : Table User)
      → HasKeys (λ r. r.id) t
      → ((id : ℕ) → has_user db id ≡ true → has_user (record db { users = t }) id ≡ true)
      → IsUnique same_user t.rows
      → IsValid (record db { users = t })
  users-IsValid t keys held unique = record {
    user_keys = keys;
    game_keys = h.game_keys;
    upload_keys = h.upload_keys;
    build_keys = h.build_keys;
    file_keys = h.file_keys;
    channel_keys = h.channel_keys;
    unique_users = unique;
    unique_channels = h.unique_channels;
    unique_sessions = h.unique_sessions;
    game_users =
        All-map (λ r. has_user db r.user_id ≡ true)
          (λ r. has_user (record db { users = t }) r.user_id ≡ true) db.games.rows
          (λ r. held r.user_id) h.game_users;
    upload_games = h.upload_games;
    build_uploads = h.build_uploads;
    build_parents = h.build_parents;
    file_builds = h.file_builds;
    channel_uploads = h.channel_uploads;
    session_files = h.session_files;
  }

  pub games-IsValid :
      (t : Table Game)
      → HasKeys (λ r. r.id) t
      → ((id : ℕ) → has_game db id ≡ true → has_game (record db { games = t }) id ≡ true)
      → All (λ g. has_user db g.user_id ≡ true) t.rows
      → IsValid (record db { games = t })
  games-IsValid t keys held refs0 = record {
    user_keys = h.user_keys;
    game_keys = keys;
    upload_keys = h.upload_keys;
    build_keys = h.build_keys;
    file_keys = h.file_keys;
    channel_keys = h.channel_keys;
    unique_users = h.unique_users;
    unique_channels = h.unique_channels;
    unique_sessions = h.unique_sessions;
    game_users = refs0;
    upload_games =
        All-map (λ r. has_game db r.game_id ≡ true)
          (λ r. has_game (record db { games = t }) r.game_id ≡ true) db.uploads.rows
          (λ r. held r.game_id) h.upload_games;
    build_uploads = h.build_uploads;
    build_parents = h.build_parents;
    file_builds = h.file_builds;
    channel_uploads = h.channel_uploads;
    session_files = h.session_files;
  }

  pub uploads-IsValid :
      (t : Table Upload)
      → HasKeys (λ r. r.id) t
      → ((id : ℕ) → has_upload db id ≡ true → has_upload (record db { uploads = t }) id ≡ true)
      → All (λ u. has_game db u.game_id ≡ true) t.rows
      → IsValid (record db { uploads = t })
  uploads-IsValid t keys held refs0 = record {
    user_keys = h.user_keys;
    game_keys = h.game_keys;
    upload_keys = keys;
    build_keys = h.build_keys;
    file_keys = h.file_keys;
    channel_keys = h.channel_keys;
    unique_users = h.unique_users;
    unique_channels = h.unique_channels;
    unique_sessions = h.unique_sessions;
    game_users = h.game_users;
    upload_games = refs0;
    build_uploads =
        All-map (λ r. has_upload db r.upload_id ≡ true)
          (λ r. has_upload (record db { uploads = t }) r.upload_id ≡ true) db.builds.rows
          (λ r. held r.upload_id) h.build_uploads;
    build_parents = h.build_parents;
    file_builds = h.file_builds;
    channel_uploads =
        All-map (λ r. has_upload db r.upload_id ≡ true)
          (λ r. has_upload (record db { uploads = t }) r.upload_id ≡ true) db.channels.rows
          (λ r. held r.upload_id) h.channel_uploads;
    session_files = h.session_files;
  }

  pub builds-IsValid :
      (t : Table Build)
      → HasKeys (λ r. r.id) t
      → ((id : ℕ) → has_build db id ≡ true → has_build (record db { builds = t }) id ≡ true)
      → All (λ b. has_upload db b.upload_id ≡ true) t.rows
      → All (λ b. refers (has_build (record db { builds = t })) b.parent_build_id ≡ true) t.rows
      → IsValid (record db { builds = t })
  builds-IsValid t keys held refs0 refs1 = record {
    user_keys = h.user_keys;
    game_keys = h.game_keys;
    upload_keys = h.upload_keys;
    build_keys = keys;
    file_keys = h.file_keys;
    channel_keys = h.channel_keys;
    unique_users = h.unique_users;
    unique_channels = h.unique_channels;
    unique_sessions = h.unique_sessions;
    game_users = h.game_users;
    upload_games = h.upload_games;
    build_uploads = refs0;
    build_parents = refs1;
    file_builds =
        All-map (λ r. has_build db r.build_id ≡ true)
          (λ r. has_build (record db { builds = t }) r.build_id ≡ true) db.build_files.rows
          (λ r. held r.build_id) h.file_builds;
    channel_uploads = h.channel_uploads;
    session_files = h.session_files;
  }

  pub build_files-IsValid :
      (t : Table BuildFile)
      → HasKeys (λ r. r.id) t
      → ((id : ℕ)
          → has_build_file db id ≡ true
          → has_build_file (record db { build_files = t }) id ≡ true)
      → All (λ f. has_build db f.build_id ≡ true) t.rows
      → IsValid (record db { build_files = t })
  build_files-IsValid t keys held refs0 = record {
    user_keys = h.user_keys;
    game_keys = h.game_keys;
    upload_keys = h.upload_keys;
    build_keys = h.build_keys;
    file_keys = keys;
    channel_keys = h.channel_keys;
    unique_users = h.unique_users;
    unique_channels = h.unique_channels;
    unique_sessions = h.unique_sessions;
    game_users = h.game_users;
    upload_games = h.upload_games;
    build_uploads = h.build_uploads;
    build_parents = h.build_parents;
    file_builds = refs0;
    channel_uploads = h.channel_uploads;
    session_files =
        All-map (λ r. has_build_file db r.build_file_id ≡ true)
          (λ r. has_build_file (record db { build_files = t }) r.build_file_id ≡ true)
          db.upload_sessions.rows (λ r. held r.build_file_id) h.session_files;
  }

  pub channels-IsValid :
      (t : Table Channel)
      → HasKeys (λ r. r.id) t
      → IsUnique same_channel t.rows
      → All (λ c. has_upload db c.upload_id ≡ true) t.rows
      → IsValid (record db { channels = t })
  channels-IsValid t keys unique refs0 = record {
    user_keys = h.user_keys;
    game_keys = h.game_keys;
    upload_keys = h.upload_keys;
    build_keys = h.build_keys;
    file_keys = h.file_keys;
    channel_keys = keys;
    unique_users = h.unique_users;
    unique_channels = unique;
    unique_sessions = h.unique_sessions;
    game_users = h.game_users;
    upload_games = h.upload_games;
    build_uploads = h.build_uploads;
    build_parents = h.build_parents;
    file_builds = h.file_builds;
    channel_uploads = refs0;
    session_files = h.session_files;
  }

  pub upload_sessions-IsValid :
      (t : Table UploadSession)
      → IsUnique same_session t.rows
      → All (λ s. has_build_file db s.build_file_id ≡ true) t.rows
      → IsValid (record db { upload_sessions = t })
  upload_sessions-IsValid t unique refs0 = record {
    user_keys = h.user_keys;
    game_keys = h.game_keys;
    upload_keys = h.upload_keys;
    build_keys = h.build_keys;
    file_keys = h.file_keys;
    channel_keys = h.channel_keys;
    unique_users = h.unique_users;
    unique_channels = h.unique_channels;
    unique_sessions = unique;
    game_users = h.game_users;
    upload_games = h.upload_games;
    build_uploads = h.build_uploads;
    build_parents = h.build_parents;
    file_builds = h.file_builds;
    channel_uploads = h.channel_uploads;
    session_files = refs0;
  }
