-- ===== src/Database/Builds.antt =====
-- The queries of models/postgres.go on builds.
pub mod Found
pub mod Latest
use den_kit_stash.Base.{
  ℕ, String, ◌==◌, number_eq, text_eq, Bool, true, ◌&&◌, Option, none, some, List, [], ◌∷◌, find,
  any, select, ltb,
}
use den_kit_stash.Model.{Build, processing, is_started, is_completed}
use den_kit_stash.World.{Env, Action, Error, query, query_row, exec}
use den_kit_stash.World.Tables.{Db, insert, modify, order_by}

abbrev pub has_upload : Db → ℕ → Bool
has_upload db id = any (λ u. u.id == id) db.uploads.rows

abbrev pub has_build : Db → ℕ → Bool
has_build db id = any (λ b. b.id == id) db.builds.rows

-- A REFERENCES clause on a nullable column.
abbrev pub refers : (ℕ → Bool) → Option ℕ → Bool
refers has none = true
refers has (some id) = has id

abbrev pub find_build : Db → ℕ → Option Build
find_build db id = find (λ b. b.id == id) db.builds.rows

-- ORDER BY id DESC
abbrev pub newest_first : List Build → List Build
newest_first = order_by (λ a b. ltb b.id a.id)

-- The join of a build with its upload's game.
abbrev pub in_game : Db → ℕ → Build → Bool
in_game db game_id b = any (λ u. u.id == b.upload_id && u.game_id == game_id) db.uploads.rows

-- The WHERE clause of GetLatestCompletedBuildByGameChannelVersion.
abbrev pub is_release : Db → ℕ → String → String → Build → Bool
is_release db game_id channel user_version b =
    in_game db game_id b
    && b.channel_name == channel
    && b.user_version == user_version
    && is_completed b.state

abbrev pub head? : List Build → Option Build
head? [] = none
head? (b ∷ bs) = some b

module _ {e : Env} where
  -- GetBuildByID
  unfoldable pub get_build_by_id : ℕ → Action e Error Build
  get_build_by_id id = query_row (λ db. find_build db id)

  -- CreateBuild
  unfoldable pub create_build : Build → Action e Error Build
  create_build given =
      exec (λ db. has_upload db given.upload_id && refers (has_build db) given.parent_build_id)
        λ now db.
          let row : ℕ → Build =
            λ id. record given { id = id; created_at = now; updated_at = now } in
          (row db.builds.next_id, record db { builds = insert row db.builds })

  -- UpdateBuild
  unfoldable pub update_build : Build → Action e Error Unit
  update_build given =
      exec (λ db. has_upload db given.upload_id && refers (has_build db) given.parent_build_id)
        λ now db. (
          tt,
          record db {
            builds =
                modify (λ b. b.id == given.id)
                  (λ b. record given { id = b.id; created_at = b.created_at; updated_at = now })
                  db.builds;
          },
        )

  -- ClaimBuildProcessing: one row is affected, or none, since the id is a primary key.
  unfoldable pub claim_build_processing : ℕ → Action e Error Bool
  claim_build_processing build_id =
      exec (λ _. true)
        λ now db. (
          any (λ b. b.id == build_id && is_started b.state) db.builds.rows,
          record db {
            builds =
                modify (λ b. b.id == build_id && is_started b.state)
                  (λ b. record b { state = processing; updated_at = now }) db.builds;
          },
        )

  -- GetBuildsByUploadID
  unfoldable pub get_builds_by_upload_id : ℕ → Action e Error (List Build)
  get_builds_by_upload_id upload_id =
      query (λ db. newest_first (select (λ b. b.upload_id == upload_id) db.builds.rows))

  -- GetBuildsByGameAndChannel
  unfoldable pub get_builds_by_game_and_channel : ℕ → String → Action e Error (List Build)
  get_builds_by_game_and_channel game_id channel = query λ db.
      newest_first (select (λ b. in_game db game_id b && b.channel_name == channel) db.builds.rows)

  -- GetLatestCompletedBuildByGameChannelVersion
  unfoldable pub get_latest_completed_build : ℕ → String → String → Action e Error Build
  get_latest_completed_build game_id channel user_version = query_row λ db.
      head? (newest_first (select (is_release db game_id channel user_version) db.builds.rows))
