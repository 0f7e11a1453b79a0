-- ===== src/Database/Channels.antt =====
-- The queries of models/postgres.go on channels.
use den_kit_stash.Base.{
  ℕ, String, ◌==◌, number_eq, text_eq, Bool, not, ◌&&◌, List, find, any, select,
}
use den_kit_stash.Model.{Channel}
use den_kit_stash.World.{Env, Action, Error, query, query_row, exec}
use den_kit_stash.World.Tables.{Db, insert, modify}
use den_kit_stash.Database.Builds.{has_upload}

-- UNIQUE(name, upload_id), against the rows other than the one of this id.
abbrev pub is_free : Db → ℕ → String → ℕ → Bool
is_free db id name upload_id =
    not
      (any (λ c. not (c.id == id) && (c.name == name && c.upload_id == upload_id)) db.channels.rows)

module _ {e : Env} where
  -- GetChannelsByUploadID
  unfoldable pub get_channels_by_upload_id : ℕ → Action e Error (List Channel)
  get_channels_by_upload_id upload_id =
      query (λ db. select (λ c. c.upload_id == upload_id) db.channels.rows)

  -- GetChannelByName
  unfoldable pub get_channel_by_name : String → ℕ → Action e Error Channel
  get_channel_by_name name upload_id =
      query_row (λ db. find (λ c. c.name == name && c.upload_id == upload_id) db.channels.rows)

  -- CreateChannel
  unfoldable pub create_channel : Channel → Action e Error Channel
  create_channel given =
      exec
        (λ db.
          has_upload db given.upload_id
          && is_free db db.channels.next_id given.name given.upload_id)
        λ now db.
          let row : ℕ → Channel =
            λ id. record given { id = id; created_at = now; updated_at = now } in
          (row db.channels.next_id, record db { channels = insert row db.channels })

  -- UpdateChannel
  unfoldable pub update_channel : Channel → Action e Error Unit
  update_channel given =
      exec (λ db. has_upload db given.upload_id && is_free db given.id given.name given.upload_id)
        λ now db. (
          tt,
          record db {
            channels =
                modify (λ c. c.id == given.id)
                  (λ c. record given { id = c.id; created_at = c.created_at; updated_at = now })
                  db.channels;
          },
        )
