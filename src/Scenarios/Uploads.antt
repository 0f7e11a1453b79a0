-- ===== src/Scenarios/Uploads.antt =====
-- The theorems on the tables and on the transfer of bytes, at a small valid stash.
use den_kit_stash.Base.{
  ℕ, ◌≡◌, refl, ◌⊎◌, ◌≤◌, true, List, [], ◌∷◌, All, codes, length, arith, select, Text,
}
use mathlib.Core.List.{Perm}
use den_kit_stash.Model.{Build, BuildFile}
use den_kit_stash.World.{World, query, query_row, call}
use den_kit_stash.World.Order.{IsOrdered}
use den_kit_stash.World.Tables.{empty_db}
use den_kit_stash.Http.{respond}
use den_kit_stash.Database.Builds.{get_latest_completed_build, is_release}
use den_kit_stash.Database.Builds.Latest.{get_latest_completed_build-newest}
use den_kit_stash.Database.Files.{list_evictable_archive_files, evictable}
use den_kit_stash.Database.Files.Evictable.{list_evictable_archive_files-oldest}
use den_kit_stash.Database.Integrity.{IsValid}
use den_kit_stash.Database.Integrity.Statements.{creates_user, creates_game, write, write_all}
use den_kit_stash.Database.Integrity.Written.{IsWrittenBy}
use den_kit_stash.Database.Integrity.Writes.{write_all-IsValid}
use den_kit_stash.Upload.Range.{match_chunk}
use den_kit_stash.Upload.Session.{put_upload_session, resume_range}
use den_kit_stash.Upload.Session.Transfer.{Transfer, receiving, Steps, Represents, Reached}
use den_kit_stash.Upload.Session.Refinement.{
  put_all, bodies, put_upload_session_refines, put_all_refines,
}
use den_kit_stash.Upload.Session.Progress.{put_upload_session_arrives}
use den_kit_stash.Scenarios.Stash.{
  stash_env, stash, stash_db, stash_file, first_build, test_user, stash_game, game_db, game_world,
}

pub game_db-IsValid : IsValid game_db
game_db-IsValid = record {
  user_keys = (omega arith, omega arith);
  game_keys = (omega arith, omega arith);
  upload_keys = (omega arith, omega arith);
  build_keys = (omega arith, omega arith);
  file_keys = (omega arith, omega arith);
  channel_keys = omega arith;
  unique_users = (tt, tt);
  unique_channels = tt;
  unique_sessions = (tt, tt);
  game_users = (refl, tt);
  upload_games = (refl, tt);
  build_uploads = (refl, tt);
  build_parents = (refl, tt);
  file_builds = (refl, tt);
  channel_uploads = tt;
  session_files = (refl, tt);
}

-- The session has received one byte.
one_byte : Represents (codes "session") (codes "builds/file") (receiving (7 ∷ [])) game_world
one_byte = ((_, refl, refl, refl, refl), refl)

put_upload_session_refines_example :
    let r =
      respond
        (put_upload_session 100 (codes "session") (codes "bytes 1-2/3") (8 ∷ 9 ∷ []))
        game_world in
    Reached (codes "session") (codes "builds/file") (8 ∷ 9 ∷ []) (receiving (7 ∷ [])) r.0 r.1
put_upload_session_refines_example =
    put_upload_session_refines 100 (codes "session") (codes "builds/file") (codes "bytes 1-2/3")
      (8 ∷ 9 ∷ []) (receiving (7 ∷ [])) game_world one_byte

-- A chunk that comes twice, and the last one.
abbrev requests : List (Text × List ℕ)
requests =
    (codes "bytes 1-1/*", 8 ∷ [])
    ∷ (codes "bytes 1-1/*", 8 ∷ [])
    ∷ (codes "bytes 2-2/3", 9 ∷ [])
    ∷ []

put_all_refines_example :
    (t' : Transfer) × Steps (bodies requests) (receiving (7 ∷ [])) t'
    × Represents
        (codes "session")
        (codes "builds/file")
        t'
        (put_all 100 (codes "session") requests game_world)
put_all_refines_example =
    put_all_refines 100 (codes "session") (codes "builds/file") requests (receiving (7 ∷ []))
      game_world one_byte

put_upload_session_arrives_example :
    let r =
      respond
        (put_upload_session 100 (codes "session") (codes "bytes 1-2/*") (8 ∷ 9 ∷ []))
        game_world in
    (r.0 ≡ resume_range 3)
    × Represents (codes "session") (codes "builds/file") (receiving (7 ∷ 8 ∷ 9 ∷ [])) r.1
unfolding match_chunk
put_upload_session_arrives_example =
    put_upload_session_arrives 100 2 (codes "session") (codes "builds/file") (codes "bytes 1-2/*")
      (7 ∷ []) (8 ∷ 9 ∷ []) game_world (λ n. refl) game_db-IsValid one_byte refl refl (omega arith)
      (omega arith) (omega arith)

abbrev two_users : World stash_env
two_users =
    write_all (creates_user test_user ∷ creates_user test_user ∷ [])
      (record stash { db = empty_db })

write_all-IsValid_example :
    IsValid (write (creates_game stash_game) two_users).db
    × IsWrittenBy
        (creates_game stash_game)
        two_users.db
        (write (creates_game stash_game) two_users).db
write_all-IsValid_example =
    write_all-IsValid (creates_user test_user ∷ creates_user test_user ∷ [])
      (creates_game stash_game) (record stash { db = empty_db }) refl

get_latest_completed_build-newest_example :
    (is_release game_db 1 "linux" "1.0" first_build ≡ true)
    × (rest : List Build) × Perm
        (first_build ∷ rest)
        (select (is_release game_db 1 "linux" "1.0") game_db.builds.rows)
    × All (λ other. other.id ≤ 1) rest
unfolding get_latest_completed_build query_row call
get_latest_completed_build-newest_example =
    get_latest_completed_build-newest 1 "linux" "1.0" game_world first_build refl

list_evictable_archive_files-oldest_example :
    All (λ f. evictable stash_db 10 f ≡ true) (stash_file 3 1 "archive" ∷ [])
    × (rest : List BuildFile) × Perm
        (stash_file 3 1 "archive" ∷ rest)
        (select (evictable stash_db 10) stash_db.build_files.rows)
    × IsOrdered (λ f g. f.last_accessed_at ≤ g.last_accessed_at) (stash_file 3 1 "archive" ∷ rest)
    × (1 ≤ 5)
    × ((length (stash_file 3 1 "archive" ∷ []) ≡ 5) ⊎ (rest ≡ []))
unfolding list_evictable_archive_files query call
list_evictable_archive_files-oldest_example =
    list_evictable_archive_files-oldest 10 5 stash (stash_file 3 1 "archive" ∷ []) refl
