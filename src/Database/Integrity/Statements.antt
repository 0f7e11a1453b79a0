-- ===== src/Database/Integrity/Statements.antt =====
-- The statements that write, as values, and any sequence of them.
use den_kit_stash.Base.{ℕ, number_eq, codes_eq, List, [], ◌∷◌}
use den_kit_stash.Model.{User, Game, Upload, Build, BuildFile, Channel, UploadSession}
use den_kit_stash.World.{Env, World}
use den_kit_stash.Database.Users.{create_user, update_user}
use den_kit_stash.Database.Projects.{create_game, create_upload, update_upload}
use den_kit_stash.Database.Builds.{create_build, update_build, claim_build_processing}
use den_kit_stash.Database.Files.{create_build_file, update_build_file, touch_build_file_access}
use den_kit_stash.Database.Channels.{create_channel, update_channel}
use den_kit_stash.Database.Sessions.{create_upload_session, update_upload_session}

-- One call of the database interface that writes.
pub data Write : Type 0 where
  creates_user updates_user : User → Write
  creates_game : Game → Write
  creates_upload updates_upload : Upload → Write
  creates_build updates_build : Build → Write
  claims_build : ℕ → Write
  creates_file updates_file : BuildFile → Write
  touches_file : ℕ → Write
  creates_channel updates_channel : Channel → Write
  creates_session updates_session : UploadSession → Write

module _ {e : Env} where
  abbrev pub write : Write → World e → World e
  write (creates_user u) w = (create_user u w).1
  write (updates_user u) w = (update_user u w).1
  write (creates_game g) w = (create_game g w).1
  write (creates_upload u) w = (create_upload u w).1
  write (updates_upload u) w = (update_upload u w).1
  write (creates_build b) w = (create_build b w).1
  write (updates_build b) w = (update_build b w).1
  write (claims_build id) w = (claim_build_processing id w).1
  write (creates_file f) w = (create_build_file f w).1
  write (updates_file f) w = (update_build_file f w).1
  write (touches_file id) w = (touch_build_file_access id w).1
  write (creates_channel c) w = (create_channel c w).1
  write (updates_channel c) w = (update_channel c w).1
  write (creates_session s) w = (create_upload_session s w).1
  write (updates_session s) w = (update_upload_session s w).1

  -- The writes of any number of requests, in the order in which the database makes them.
  abbrev pub write_all : List Write → World e → World e
  write_all [] w = w
  write_all (x ∷ xs) w = write_all xs (write x w)
