-- ===== src/Listing/Core.antt =====
-- handlers/core.go: the profile, and games, uploads and builds by their ids.
use den_kit_stash.Base.{ℕ, Text, true, false, Option, List, map}
use den_kit_stash.Model.{User, Game}
use den_kit_stash.World.{Env, ◌>>=◌, ◌>>◌, pure, ◌or_fail◌}
use den_kit_stash.Http.{Response, Handler, json, problem, internal_error}
use den_kit_stash.Database.Projects.{
  get_games_by_user_id, get_game_by_id, get_uploads_by_game_id, get_upload_by_id,
}
use den_kit_stash.Database.Builds.{get_build_by_id, get_builds_by_upload_id}
use den_kit_stash.Archive.Files.{new_uuid}
use den_kit_stash.Build.Access.{path_int}
use den_kit_stash.Serialize.{
  PublicUserResponse, GameResponse, ProfileGameResponse, CoreUploadResponse, CoreBuildResponse,
  new_public_user_response, new_core_upload_response, new_core_build_response,
}

abbrev profile_game : Game → ProfileGameResponse
profile_game game = record {
  id = game.id;
  user_id = game.user_id;
  title = game.title;
  short_text = game.short_text;
  type = game.type;
  classification = game.classification;
  url = game.url;
  created_at = game.created_at;
  updated_at = game.updated_at;
}

abbrev game_response : User → Game → GameResponse
game_response user game = record {
  id = game.id;
  title = game.title;
  short_text = game.short_text;
  type = game.type;
  classification = game.classification;
  url = game.url;
  user = new_public_user_response user;
}

module _ {e : Env} where
  -- GetProfile
  unfoldable pub get_profile : User → Handler e PublicUserResponse (Response PublicUserResponse)
  get_profile user = pure (json (new_public_user_response user))

  -- GetProfileGames
  unfoldable pub get_profile_games :
      User → Handler e (List ProfileGameResponse) (Response (List ProfileGameResponse))
  get_profile_games user = do
    games ← get_games_by_user_id user.id or_fail internal_error
    pure (json (map profile_game games))

  -- GetGame
  unfoldable pub get_game : Option ℕ → Handler e GameResponse (Response GameResponse)
  get_game id = do
    game_id ← path_int id "invalid game id"
    found ← get_game_by_id game_id or_fail problem 404 "game not found"
    pure (json (game_response found.0 found.1))

  -- GetGameUploads
  unfoldable pub get_game_uploads :
      Option ℕ → Handler e (List CoreUploadResponse) (Response (List CoreUploadResponse))
  get_game_uploads id = do
    game_id ← path_int id "invalid game id"
    get_game_by_id game_id or_fail problem 404 "game not found"
    uploads ← get_uploads_by_game_id game_id or_fail internal_error
    pure (json (map new_core_upload_response uploads))

  -- CreateDownloadSession; the UUID is not stored
  unfoldable pub create_download_session : Option ℕ → Handler e Text (Response Text)
  create_download_session id = do
    game_id ← path_int id "invalid game id"
    get_game_by_id game_id or_fail problem 404 "game not found"
    uuid ← new_uuid or_fail internal_error
    pure (json uuid)

  -- GetUpload
  unfoldable pub get_upload : Option ℕ → Handler e CoreUploadResponse (Response CoreUploadResponse)
  get_upload id = do
    upload_id ← path_int id "invalid upload id"
    upload ← get_upload_by_id upload_id or_fail problem 404 "upload not found"
    pure (json (new_core_upload_response upload))

  -- GetUploadBuilds
  unfoldable pub get_upload_builds :
      Option ℕ → Handler e (List CoreBuildResponse) (Response (List CoreBuildResponse))
  get_upload_builds id = do
    upload_id ← path_int id "invalid upload id"
    get_upload_by_id upload_id or_fail problem 404 "upload not found"
    builds ← get_builds_by_upload_id upload_id or_fail internal_error
    pure (json (map (λ b. new_core_build_response e b false) builds))

  -- GetBuild
  unfoldable pub get_build : Option ℕ → Handler e CoreBuildResponse (Response CoreBuildResponse)
  get_build id = do
    build_id ← path_int id "invalid build id"
    build ← get_build_by_id build_id or_fail problem 404 "build not found"
    pure (json (new_core_build_response e build true))
