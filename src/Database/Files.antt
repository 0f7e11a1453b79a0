-- ===== src/Database/Files.antt =====
-- The queries of models/postgres.go on build files, those of the archive cache among them.
pub mod Evictable
use den_kit_stash.Base.{
  ℕ, ◌==◌, number_eq, text_eq, Bool, true, false, not, ◌&&◌, none, some, List, find, any, select,
  take, leb, ltb, is_blank,
}
use den_kit_stash.Model.{BuildFile, Channel, is_uploaded, is_evicted, is_completed}
use den_kit_stash.World.{Env, Action, Error, query, query_row, exec}
use den_kit_stash.World.Tables.{Db, insert, modify, order_by}
use den_kit_stash.Database.Builds.{has_build}

abbrev is_head : ℕ → Channel → Bool
is_head build_id c = elim c.current_build_id [ none ↦ false | some id ↦ id == build_id ]

abbrev pub channel_head : Db → ℕ → Bool
channel_head db build_id = any (is_head build_id) db.channels.rows

abbrev is_default_archive : BuildFile → Bool
is_default_archive f = f.type == "archive" && f.sub_type == "default"

abbrev build_completed : Db → ℕ → Bool
build_completed db id = any (λ b. b.id == id && is_completed b.state) db.builds.rows

-- The WHERE clause of ListEvictableArchiveFiles.
abbrev pub evictable : Db → ℕ → BuildFile → Bool
evictable db before f =
    is_default_archive f
    && is_uploaded f.state
    && build_completed db f.build_id
    && ltb f.last_accessed_at before
    && not (channel_head db f.build_id)

module _ {e : Env} where
  -- GetBuildFilesByBuildID
  unfoldable pub get_build_files_by_build_id : ℕ → Action e Error (List BuildFile)
  get_build_files_by_build_id build_id =
      query (λ db. select (λ f. f.build_id == build_id) db.build_files.rows)

  -- GetBuildFileByID
  unfoldable pub get_build_file_by_id : ℕ → Action e Error BuildFile
  get_build_file_by_id id = query_row (λ db. find (λ f. f.id == id) db.build_files.rows)

  -- CreateBuildFile: `evicted_at` is not inserted.
  unfoldable pub create_build_file : BuildFile → Action e Error BuildFile
  create_build_file given =
      exec (λ db. has_build db given.build_id)
        λ now db.
          let row : ℕ → BuildFile = λ id. record given {
            id = id;
            last_accessed_at = now;
            created_at = now;
            updated_at = now;
          } in
          (
            row db.build_files.next_id,
            record db {
              build_files = insert (λ id. record (row id) { evicted_at = none }) db.build_files;
            },
          )

  -- UpdateBuildFile leaves `last_accessed_at` alone.
  unfoldable pub update_build_file : BuildFile → Action e Error Unit
  update_build_file given =
      exec (λ db. has_build db given.build_id)
        λ now db. (
          tt,
          record db {
            build_files =
                modify (λ f. f.id == given.id)
                  (λ f. record given {
                    id = f.id;
                    last_accessed_at = f.last_accessed_at;
                    created_at = f.created_at;
                    updated_at = now;
                  })
                  db.build_files;
          },
        )

  -- TouchBuildFileAccess
  unfoldable pub touch_build_file_access : ℕ → Action e Error Unit
  touch_build_file_access id =
      exec (λ _. true)
        λ now db. (
          tt,
          record db {
            build_files =
                modify (λ f. f.id == id) (λ f. record f { last_accessed_at = now }) db.build_files;
          },
        )

  -- ListEvictableArchiveFiles
  unfoldable pub list_evictable_archive_files : ℕ → ℕ → Action e Error (List BuildFile)
  list_evictable_archive_files last_accessed_before limit = query λ db. take limit (
      order_by (λ f g. leb f.last_accessed_at g.last_accessed_at)
        (select (evictable db last_accessed_before) db.build_files.rows))

  -- ListEvictedArchiveFilesWithStorage
  unfoldable pub list_evicted_archive_files_with_storage : ℕ → Action e Error (List BuildFile)
  list_evicted_archive_files_with_storage limit = query λ db. take limit (
      select (λ f. is_default_archive f && is_evicted f.state && not (is_blank f.storage_path))
        db.build_files.rows)

  -- IsChannelHead
  unfoldable pub is_channel_head : ℕ → Action e Error Bool
  is_channel_head build_id = query (λ db. channel_head db build_id)
