-- ===== src/Database/Projects.antt =====
-- The queries of models/postgres.go on games and uploads.
use den_kit_stash.Base.{
  ℕ, String, ◌==◌, number_eq, text_eq, Bool, ◌&&◌, Option, none, some, List, find, any, select,
  if◌then◌else◌,
}
use den_kit_stash.Model.{User, Game, Upload, is_empty}
use den_kit_stash.World.{Env, Action, Error, query, query_row, exec}
use den_kit_stash.World.Tables.{Db, insert, modify}

abbrev pub has_user : Db → ℕ → Bool
has_user db id = any (λ u. u.id == id) db.users.rows

abbrev pub has_game : Db → ℕ → Bool
has_game db id = any (λ g. g.id == id) db.games.rows

abbrev owner_of : Db → Game → Option (User × Game)
owner_of db g = elim (find (λ u. u.id == g.user_id) db.users.rows) [
  | none ↦ none
  | some u ↦ some (u, g)
]

-- The first row of the join of a game with its owner.
abbrev pub joined_game : Db → ℕ → Option (User × Game)
joined_game db id = elim (find (λ g. g.id == id) db.games.rows) [
  | none ↦ none
  | some g ↦ owner_of db g
]

abbrev pub or_text : String → String → String
or_text s fallback = if is_empty s then fallback else s

module _ {e : Env} where
  -- GetGameByID
  unfoldable pub get_game_by_id : ℕ → Action e Error (User × Game)
  get_game_by_id id = query_row (λ db. joined_game db id)

  -- GetGameByUserAndTitle
  unfoldable pub get_game_by_user_and_title : ℕ → String → Action e Error Game
  get_game_by_user_and_title user_id title =
      query_row (λ db. find (λ g. g.user_id == user_id && g.title == title) db.games.rows)

  -- GetGamesByUserID
  unfoldable pub get_games_by_user_id : ℕ → Action e Error (List Game)
  get_games_by_user_id user_id = query (λ db. select (λ g. g.user_id == user_id) db.games.rows)

  -- CreateGame
  unfoldable pub create_game : Game → Action e Error Game
  create_game given =
      exec (λ db. has_user db given.user_id)
        λ now db.
          let row : ℕ → Game = λ id. record given { id = id; created_at = now; updated_at = now } in
          (row db.games.next_id, record db { games = insert row db.games })

  -- GetUploadsByGameID
  unfoldable pub get_uploads_by_game_id : ℕ → Action e Error (List Upload)
  get_uploads_by_game_id game_id = query (λ db. select (λ u. u.game_id == game_id) db.uploads.rows)

  -- GetUploadByID
  unfoldable pub get_upload_by_id : ℕ → Action e Error Upload
  get_upload_by_id id = query_row (λ db. find (λ u. u.id == id) db.uploads.rows)

  -- CreateUpload
  unfoldable pub create_upload : Upload → Action e Error Upload
  create_upload given =
      exec (λ db. has_game db given.game_id)
        λ now db.
          let row : ℕ → Upload = λ id. record given {
            id = id;
            type = or_text given.type "default";
            platforms = or_text given.platforms "[]";
            created_at = now;
            updated_at = now;
          } in
          (row db.uploads.next_id, record db { uploads = insert row db.uploads })

  -- UpdateUpload
  unfoldable pub update_upload : Upload → Action e Error Unit
  update_upload given =
      exec (λ db. has_game db given.game_id)
        λ now db. (
          tt,
          record db {
            uploads =
                modify (λ u. u.id == given.id)
                  (λ u. record given { id = u.id; created_at = u.created_at; updated_at = now })
                  db.uploads;
          },
        )
