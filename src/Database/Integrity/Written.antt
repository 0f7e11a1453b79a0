-- ===== src/Database/Integrity/Written.antt =====
-- Which rows a statement writes.
use den_kit_stash.Base.{◌≡◌, refl, eq_refl, number_eq, codes_eq}
use den_kit_stash.Model.{User, Game, Upload, Build, BuildFile, Channel, UploadSession}
use den_kit_stash.World.{Env, World}
use den_kit_stash.World.Tables.{Db}
use den_kit_stash.Database.Users.{create_user, update_user, api_key_digest}
use den_kit_stash.Database.Projects.{create_game, create_upload, update_upload}
use den_kit_stash.Database.Builds.{create_build, update_build, claim_build_processing}
use den_kit_stash.Database.Files.{create_build_file, update_build_file, touch_build_file_access}
use den_kit_stash.Database.Channels.{create_channel, update_channel}
use den_kit_stash.Database.Sessions.{create_upload_session, update_upload_session}
use den_kit_stash.Database.Integrity.Reach.{
  OthersStay, others-insert, others-modify, exec-Reach, lift-Reach,
}
use den_kit_stash.Database.Integrity.Statements.{
  Write, write, creates_user, updates_user, creates_game, creates_upload, updates_upload,
  creates_build, updates_build, claims_build, creates_file, updates_file, touches_file,
  creates_channel, updates_channel, creates_session, updates_session,
}

-- What a write may change: one table, and there the row of one key, a new one or the one that it names.
abbrev pub IsWrittenBy : Write → Db → Db → Type 0
IsWrittenBy (creates_user x) db db' =
    (db' ≡ record db { users = db'.users })
    × OthersStay (λ (r : User). r.id) (db.users.next_id) db.users.rows db'.users.rows
IsWrittenBy (updates_user x) db db' =
    (db' ≡ record db { users = db'.users })
    × OthersStay (λ (r : User). r.id) (x.id) db.users.rows db'.users.rows
IsWrittenBy (creates_game x) db db' =
    (db' ≡ record db { games = db'.games })
    × OthersStay (λ (r : Game). r.id) (db.games.next_id) db.games.rows db'.games.rows
IsWrittenBy (creates_upload x) db db' =
    (db' ≡ record db { uploads = db'.uploads })
    × OthersStay (λ (r : Upload). r.id) (db.uploads.next_id) db.uploads.rows db'.uploads.rows
IsWrittenBy (updates_upload x) db db' =
    (db' ≡ record db { uploads = db'.uploads })
    × OthersStay (λ (r : Upload). r.id) (x.id) db.uploads.rows db'.uploads.rows
IsWrittenBy (creates_build x) db db' =
    (db' ≡ record db { builds = db'.builds })
    × OthersStay (λ (r : Build). r.id) (db.builds.next_id) db.builds.rows db'.builds.rows
IsWrittenBy (updates_build x) db db' =
    (db' ≡ record db { builds = db'.builds })
    × OthersStay (λ (r : Build). r.id) (x.id) db.builds.rows db'.builds.rows
IsWrittenBy (claims_build x) db db' =
    (db' ≡ record db { builds = db'.builds })
    × OthersStay (λ (r : Build). r.id) x db.builds.rows db'.builds.rows
IsWrittenBy (creates_file x) db db' =
    (db' ≡ record db { build_files = db'.build_files })
    × OthersStay (λ (r : BuildFile). r.id) (db.build_files.next_id) db.build_files.rows
        db'.build_files.rows
IsWrittenBy (updates_file x) db db' =
    (db' ≡ record db { build_files = db'.build_files })
    × OthersStay (λ (r : BuildFile). r.id) (x.id) db.build_files.rows db'.build_files.rows
IsWrittenBy (touches_file x) db db' =
    (db' ≡ record db { build_files = db'.build_files })
    × OthersStay (λ (r : BuildFile). r.id) x db.build_files.rows db'.build_files.rows
IsWrittenBy (creates_channel x) db db' =
    (db' ≡ record db { channels = db'.channels })
    × OthersStay (λ (r : Channel). r.id) (db.channels.next_id) db.channels.rows db'.channels.rows
IsWrittenBy (updates_channel x) db db' =
    (db' ≡ record db { channels = db'.channels })
    × OthersStay (λ (r : Channel). r.id) (x.id) db.channels.rows db'.channels.rows
IsWrittenBy (creates_session x) db db' =
    (db' ≡ record db { upload_sessions = db'.upload_sessions })
    × OthersStay (λ (r : UploadSession). r.id) (x.id) db.upload_sessions.rows
        db'.upload_sessions.rows
IsWrittenBy (updates_session x) db db' =
    (db' ≡ record db { upload_sessions = db'.upload_sessions })
    × OthersStay (λ (r : UploadSession). r.id) (x.id) db.upload_sessions.rows
        db'.upload_sessions.rows

module _ {e : Env} where
  -- Whatever comes back of the call.
  pub write-IsWrittenBy : (x : Write) (w : World e) → IsWrittenBy x w.db (write x w).db
  unfolding create_user update_user create_game create_upload update_upload create_build
      update_build claim_build_processing create_build_file update_build_file
      touch_build_file_access create_channel update_channel create_upload_session
      update_upload_session
  write-IsWrittenBy (creates_user x) w =
      lift-Reach (IsWrittenBy (creates_user x)) (api_key_digest e x.api_key) _ w (refl, refl)
        λ digest.
          exec-Reach (IsWrittenBy (creates_user x)) _ _ w (refl, refl)
            (λ now. (
              refl,
              others-insert (λ (r : User). r.id) w.db.users.next_id w.db.users.rows _
                  (eq_refl w.db.users.next_id),
            ))
  write-IsWrittenBy (updates_user x) w =
      lift-Reach (IsWrittenBy (updates_user x)) (api_key_digest e x.api_key) _ w (refl, refl)
        λ digest.
          exec-Reach (IsWrittenBy (updates_user x)) _ _ w (refl, refl)
            (λ now. (
              refl,
              others-modify (λ (r : User). r.id) x.id _ _ w.db.users.rows (λ r h. h) (λ r. refl),
            ))
  write-IsWrittenBy (creates_game x) w =
      exec-Reach (IsWrittenBy (creates_game x)) _ _ w (refl, refl)
        (λ now. (
          refl,
          others-insert (λ (r : Game). r.id) w.db.games.next_id w.db.games.rows _
              (eq_refl w.db.games.next_id),
        ))
  write-IsWrittenBy (creates_upload x) w =
      exec-Reach (IsWrittenBy (creates_upload x)) _ _ w (refl, refl)
        (λ now. (
          refl,
          others-insert (λ (r : Upload). r.id) w.db.uploads.next_id w.db.uploads.rows _
              (eq_refl w.db.uploads.next_id),
        ))
  write-IsWrittenBy (updates_upload x) w =
      exec-Reach (IsWrittenBy (updates_upload x)) _ _ w (refl, refl)
        (λ now. (
          refl,
          others-modify (λ (r : Upload). r.id) x.id _ _ w.db.uploads.rows (λ r h. h) (λ r. refl),
        ))
  write-IsWrittenBy (creates_build x) w =
      exec-Reach (IsWrittenBy (creates_build x)) _ _ w (refl, refl)
        (λ now. (
          refl,
          others-insert (λ (r : Build). r.id) w.db.builds.next_id w.db.builds.rows _
              (eq_refl w.db.builds.next_id),
        ))
  write-IsWrittenBy (updates_build x) w =
      exec-Reach (IsWrittenBy (updates_build x)) _ _ w (refl, refl)
        (λ now. (
          refl,
          others-modify (λ (r : Build). r.id) x.id _ _ w.db.builds.rows (λ r h. h) (λ r. refl),
        ))
  write-IsWrittenBy (claims_build x) w =
      exec-Reach (IsWrittenBy (claims_build x)) _ _ w (refl, refl)
        (λ now. (
          refl,
          others-modify (λ (r : Build). r.id) x _ _ w.db.builds.rows (λ r h. rw h) (λ r. refl),
        ))
  write-IsWrittenBy (creates_file x) w =
      exec-Reach (IsWrittenBy (creates_file x)) _ _ w (refl, refl)
        (λ now. (
          refl,
          others-insert (λ (r : BuildFile). r.id) w.db.build_files.next_id w.db.build_files.rows _
              (eq_refl w.db.build_files.next_id),
        ))
  write-IsWrittenBy (updates_file x) w =
      exec-Reach (IsWrittenBy (updates_file x)) _ _ w (refl, refl)
        (λ now. (
          refl,
          others-modify (λ (r : BuildFile). r.id) x.id _ _ w.db.build_files.rows (λ r h. h)
              (λ r. refl),
        ))
  write-IsWrittenBy (touches_file x) w =
      exec-Reach (IsWrittenBy (touches_file x)) _ _ w (refl, refl)
        (λ now. (
          refl,
          others-modify (λ (r : BuildFile). r.id) x _ _ w.db.build_files.rows (λ r h. h)
              (λ r. refl),
        ))
  write-IsWrittenBy (creates_channel x) w =
      exec-Reach (IsWrittenBy (creates_channel x)) _ _ w (refl, refl)
        (λ now. (
          refl,
          others-insert (λ (r : Channel). r.id) w.db.channels.next_id w.db.channels.rows _
              (eq_refl w.db.channels.next_id),
        ))
  write-IsWrittenBy (updates_channel x) w =
      exec-Reach (IsWrittenBy (updates_channel x)) _ _ w (refl, refl)
        (λ now. (
          refl,
          others-modify (λ (r : Channel). r.id) x.id _ _ w.db.channels.rows (λ r h. h) (λ r. refl),
        ))
  write-IsWrittenBy (creates_session x) w =
      exec-Reach (IsWrittenBy (creates_session x)) _ _ w (refl, refl)
        (λ now. (
          refl,
          others-insert (λ (r : UploadSession). r.id) x.id w.db.upload_sessions.rows _
              (eq_refl x.id),
        ))
  write-IsWrittenBy (updates_session x) w =
      exec-Reach (IsWrittenBy (updates_session x)) _ _ w (refl, refl)
        (λ now. (
          refl,
          others-modify (λ (r : UploadSession). r.id) x.id _ _ w.db.upload_sessions.rows (λ r h. h)
              (λ r. refl),
        ))
