-- ===== src/Database/Integrity/Writes.antt =====
-- Any sequence of statements keeps the tables valid, from the tables that the migration creates.
use den_kit_stash.Base.{◌≡◌, number_eq, codes_eq, sym, subst, List, [], ◌∷◌, arith}
use den_kit_stash.World.{Env, World}
use den_kit_stash.World.Tables.{empty_db}
use den_kit_stash.Database.Integrity.{IsValid}
use den_kit_stash.Database.Integrity.Projects.{
  create_game-Valid, create_upload-Valid, update_upload-Valid,
}
use den_kit_stash.Database.Integrity.Builds.{
  create_build-Valid, update_build-Valid, claim_build_processing-Valid, create_build_file-Valid,
  update_build_file-Valid, touch_build_file_access-Valid,
}
use den_kit_stash.Database.Integrity.Accounts.{
  create_user-Valid, update_user-Valid, create_channel-Valid, update_channel-Valid,
  create_upload_session-Valid, update_upload_session-Valid,
}
use den_kit_stash.Database.Integrity.Statements.{
  Write, write, write_all, creates_user, updates_user, creates_game, creates_upload, updates_upload,
  creates_build, updates_build, claims_build, creates_file, updates_file, touches_file,
  creates_channel, updates_channel, creates_session, updates_session,
}
use den_kit_stash.Database.Integrity.Written.{IsWrittenBy, write-IsWrittenBy}

module _ {e : Env} where
  -- Whatever comes back of the call, a write keeps the tables valid: the ids of a table grow and stay
  -- below the next one, the username and the key of a user, the name of a channel in its upload and the
  -- id of an upload session stay unique, and the rows that others refer to are there.
  pub write-IsValid : (x : Write) (w : World e) → IsValid w.db → IsValid (write x w).db
  write-IsValid (creates_user u) w h = (create_user-Valid u).at w h
  write-IsValid (updates_user u) w h = (update_user-Valid u).at w h
  write-IsValid (creates_game g) w h = (create_game-Valid g).at w h
  write-IsValid (creates_upload u) w h = (create_upload-Valid u).at w h
  write-IsValid (updates_upload u) w h = (update_upload-Valid u).at w h
  write-IsValid (creates_build b) w h = (create_build-Valid b).at w h
  write-IsValid (updates_build b) w h = (update_build-Valid b).at w h
  write-IsValid (claims_build id) w h = (claim_build_processing-Valid id).at w h
  write-IsValid (creates_file f) w h = (create_build_file-Valid f).at w h
  write-IsValid (updates_file f) w h = (update_build_file-Valid f).at w h
  write-IsValid (touches_file id) w h = (touch_build_file_access-Valid id).at w h
  write-IsValid (creates_channel c) w h = (create_channel-Valid c).at w h
  write-IsValid (updates_channel c) w h = (update_channel-Valid c).at w h
  write-IsValid (creates_session s) w h = (create_upload_session-Valid s).at w h
  write-IsValid (updates_session s) w h = (update_upload_session-Valid s).at w h

  after_writes : (xs : List Write) (w : World e) → IsValid w.db → IsValid (write_all xs w).db
  after_writes [] w h = h
  after_writes (x ∷ xs) w h = after_writes xs (write x w) (write-IsValid x w h)

empty_db-IsValid : IsValid empty_db
empty_db-IsValid = record {
  user_keys = omega arith;
  game_keys = omega arith;
  upload_keys = omega arith;
  build_keys = omega arith;
  file_keys = omega arith;
  channel_keys = omega arith;
  unique_users = tt;
  unique_channels = tt;
  unique_sessions = tt;
  game_users = tt;
  upload_games = tt;
  build_uploads = tt;
  build_parents = tt;
  file_builds = tt;
  channel_uploads = tt;
  session_files = tt;
}

-- From the empty tables that the migration creates, after any sequence of writes, whether each is
-- answered, refused, or made without an answer, one more write leaves tables with the keys, the
-- unique columns and the references that the migration declares. It changes one table only, and in it no
-- row but a new one or those of the key that it names. The writes of several requests may come in any
-- order.
pub write_all-IsValid :
    {e : Env} (xs : List Write) (x : Write) (w : World e)
    → w.db ≡ empty_db
    → IsValid (write x (write_all xs w)).db
      × IsWrittenBy x (write_all xs w).db (write x (write_all xs w)).db
write_all-IsValid xs x w h = (
  write-IsValid x (write_all xs w) (after_writes xs w (subst IsValid (sym h) empty_db-IsValid)),
  write-IsWrittenBy x (write_all xs w),
)
