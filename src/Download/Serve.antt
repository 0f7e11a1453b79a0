-- ===== src/Download/Serve.antt =====
-- The download handlers of handlers/wharf_downloads.go.
pub mod Access
use den_kit_stash.Base.{
  ℕ, String, Text, Bool, true, false, not, ◌||◌, ◌&&◌, ◌==◌, number_eq, text_eq, Option, none, some,
  List, [], ◌∷◌, codes, starts_with, if◌then◌else◌,
}
use den_kit_stash.Model.{User, Upload, Build, BuildFile, Channel}
use den_kit_stash.World.{Env, Action, Error, ok, ◌>>=◌, ◌>>◌, pure, raise, attempt, call, ◌or_fail◌}
use den_kit_stash.Http.{Response, Handler, json, problem, redirect, internal_error}
use den_kit_stash.Database.Users.{get_user_by_username}
use den_kit_stash.Database.Projects.{get_game_by_user_and_title, get_uploads_by_game_id}
use den_kit_stash.Database.Channels.{get_channel_by_name}
use den_kit_stash.Database.Files.{get_build_file_by_id}
use den_kit_stash.Archive.Files.{has_kind, find_build_file, find_build_file_any_state, file_exists}
use den_kit_stash.Archive.Rebuild.{ensure_archive}
use den_kit_stash.Build.Access.{
  path_int, refuse_if, authorized_build, authorize_build_access, build_access_error,
  validate_namespace_access,
}
use den_kit_stash.Download.Filename.{download_filename}

-- strings.Contains
abbrev pub has_infix : Text → Text → Bool
has_infix [] s = starts_with [] s
has_infix (c ∷ cs) s = starts_with (c ∷ cs) s || has_infix cs s

-- What `redirectBuildFile` reads of a request.
pub record Accepts : Type 0 where
  pub accept : Text
  pub json_query : String

unfoldable pub wants_json : Accepts → Bool
wants_json r = has_infix r.accept (codes "application/json") || r.json_query == "1"

-- A download answers with a URL, in JSON or by a redirect.
abbrev pub Download : Env → Type 0 → Type 0
Download e A = Handler e Text A

abbrev pub has_row : Option (Option BuildFile) → Bool
has_row (some (some file)) = true
has_row _ = false

abbrev pub head_of_channel : Option Channel → Option ℕ
head_of_channel none = none
head_of_channel (some channel) = channel.current_build_id

module _ {e : Env} where
  -- GetSignedURL
  unfoldable pub get_signed_url : Text → Text → Action e Error Text
  get_signed_url path download_filename = call (λ w. (ok (e.presign_get path download_filename), w))

  -- redirectBuildFile
  unfoldable pub redirect_build_file : Accepts → BuildFile → Download e (Response Text)
  redirect_build_file r file = do
    present ← file_exists file.storage_path or_fail internal_error
    refuse_if (not present) (problem 404 "file not found in storage")
    name ← download_filename file
    url ←
        get_signed_url file.storage_path name or_fail problem 500 "could not generate download URL"
    pure (if wants_json r then json url else redirect url)

  -- serveArchiveDownload
  unfoldable pub serve_archive_download : Accepts → ℕ → Download e (Response Text)
  serve_archive_download r build_id = do
    file ← ensure_archive build_id or_fail problem 404 "archive unavailable"
    redirect_build_file r file

  -- An archive goes through the archive cache, any other file is redirected to.
  abbrev pub serve_file : Accepts → ℕ → BuildFile → Bool → Download e (Response Text)
  serve_file r build_id file true = serve_archive_download r build_id
  serve_file r build_id file false = redirect_build_file r file

  -- GetBuildFileDownload
  unfoldable pub get_build_file_download :
      Option User → Option ℕ → Option ℕ → Accepts → Download e (Response Text)
  get_build_file_download user build_path file_path r = do
    build_id ← path_int build_path "invalid build id"
    file_id ← path_int file_path "invalid file id"
    build ← authorized_build user build_id
    file ← get_build_file_by_id file_id or_fail problem 404 "build file not found"
    refuse_if (not (file.build_id == build_id)) (problem 400 "build file does not belong to build")
    serve_file r build_id file (has_kind "archive" "default" file)

  abbrev pub serve_kind : Accepts → ℕ → String → String → Bool → Download e (Response Text)
  serve_kind r build_id file_type sub_type true = serve_archive_download r build_id
  serve_kind r build_id file_type sub_type false = do
    file ← find_build_file build_id file_type sub_type or_fail problem 404 "build file not found"
    redirect_build_file r file

  -- GetBuildDownloadByType
  unfoldable pub get_build_download_by_type :
      Option User → Option ℕ → String → String → Accepts → Download e (Response Text)
  get_build_download_by_type user build_path file_type sub_type r = do
    build_id ← path_int build_path "invalid build id"
    authorize_build_access user build_id or_fail build_access_error user
    serve_kind r build_id file_type sub_type (file_type == "archive" && sub_type == "default")

  -- The build at the head of the channel, if it has an archive's row in whatever state.
  abbrev pub archived_head : Option ℕ → Download e (Option ℕ)
  archived_head none = pure none
  archived_head (some build_id) = do
    file ← attempt (find_build_file_any_state build_id "archive" "default")
    pure (if has_row file then some build_id else none)

  -- The loop of GetLatestChannelArchive
  unfoldable pub latest_archive : String → List Upload → Download e (Option ℕ)
  latest_archive channel_name [] = pure none
  latest_archive channel_name (upload ∷ rest) = do
    channel ← attempt (get_channel_by_name channel_name upload.id)
    found ← archived_head (head_of_channel channel)
    elim found [ some build_id ↦ pure (some build_id) | none ↦ latest_archive channel_name rest ]

  abbrev pub serve_latest : Accepts → Option ℕ → Download e (Response Text)
  serve_latest r (some build_id) = serve_archive_download r build_id
  serve_latest r none = pure (problem 404 "archive not found")

  abbrev pub required_user : Option User → Download e User
  required_user none = raise (problem 401 "missing api_key")
  required_user (some user) = pure user

  -- What follows once the user may access the namespace.
  abbrev pub latest_in_namespace : String → String → String → Accepts → Download e (Response Text)
  latest_in_namespace namespace game_name channel_name r = do
    owner ← get_user_by_username namespace or_fail problem 404 "namespace not found"
    game ← get_game_by_user_and_title owner.id game_name or_fail problem 404 "game not found"
    uploads ← get_uploads_by_game_id game.id or_fail problem 500 "failed to load uploads"
    found ← latest_archive channel_name uploads
    serve_latest r found

  -- GetLatestChannelArchive
  unfoldable pub get_latest_channel_archive :
      Option User → String → String → String → Accepts → Download e (Response Text)
  get_latest_channel_archive user namespace game_name channel_name r = do
    request_user ← required_user user
    validate_namespace_access request_user namespace or_fail problem 403 "access denied"
    latest_in_namespace namespace game_name channel_name r
