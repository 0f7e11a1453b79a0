-- ===== src/Database/Sessions.antt =====
-- The queries of models/postgres.go on upload sessions, whose ids the program chooses.
use den_kit_stash.Base.{ℕ, Text, ◌==◌, number_eq, codes_eq, Bool, not, ◌&&◌, find, any}
use den_kit_stash.Model.{UploadSession}
use den_kit_stash.World.{Env, Action, Error, query_row, exec}
use den_kit_stash.World.Tables.{Db, insert, modify}

abbrev pub has_build_file : Db → ℕ → Bool
has_build_file db id = any (λ f. f.id == id) db.build_files.rows

module _ {e : Env} where
  -- GetUploadSessionByID
  unfoldable pub get_upload_session_by_id : Text → Action e Error UploadSession
  get_upload_session_by_id id = query_row (λ db. find (λ s. s.id == id) db.upload_sessions.rows)

  -- CreateUploadSession
  unfoldable pub create_upload_session : UploadSession → Action e Error Unit
  create_upload_session given =
      exec
        (λ db.
          has_build_file db given.build_file_id
          && not (any (λ s. s.id == given.id) db.upload_sessions.rows))
        λ now db. (
          tt,
          record db {
            upload_sessions =
                insert (λ _. record given { created_at = now; updated_at = now })
                  db.upload_sessions;
          },
        )

  -- UpdateUploadSession
  unfoldable pub update_upload_session : UploadSession → Action e Error Unit
  update_upload_session given =
      exec (λ db. has_build_file db given.build_file_id)
        λ now db. (
          tt,
          record db {
            upload_sessions =
                modify (λ s. s.id == given.id)
                  (λ s. record given { id = s.id; created_at = s.created_at; updated_at = now })
                  db.upload_sessions;
          },
        )
