-- ===== src/Build/Files.antt =====
-- The build-file handlers of handlers/wharf_builds.go.
pub mod Access
use den_kit_stash.Base.{
  ℕ, String, Text, Bool, true, false, not, ◌&&◌, ◌||◌, ◌==◌, number_eq, text_eq, Option, none, List,
  [], ◌∷◌, ◌++◌, codes, decimal, ltb, if◌then◌else◌,
}
use den_kit_stash.Model.{
  User, BuildFile, FileState, UploadSession, uploading, uploaded, active, is_empty,
}
use den_kit_stash.World.{Env, ◌>>=◌, ◌>>◌, pure, raise, attempt, call, ◌or_fail◌, ok}
use den_kit_stash.Http.{Response, Handler, json, problem, internal_error}
use den_kit_stash.Database.Files.{
  get_build_files_by_build_id, get_build_file_by_id, create_build_file, update_build_file,
}
use den_kit_stash.Database.Sessions.{create_upload_session}
use den_kit_stash.Archive.Files.{new_uuid, file_exists, head_object}
use den_kit_stash.Serialize.{WharfBuildFileResponse, new_wharf_build_file_responses}
use den_kit_stash.Build.Access.{Decoded, decode_request, refuse_if, path_int, authorized_build}
use den_kit_stash.Build.State.{check_and_update_build_state}

-- What `absoluteURL` reads of a request.
pub record Origin : Type 0 where
  pub tls : Bool
  pub forwarded_proto : Text
  pub host : Text

abbrev scheme : Origin → Text
scheme r = elim r.forwarded_proto [
  | [] ↦ if r.tls then codes "https" else codes "http"
  | c ∷ s ↦ c ∷ s
]

-- absoluteURL
unfoldable pub absolute_url : Origin → Text → Text
absolute_url r path = scheme r ++ (codes "://" ++ (r.host ++ path))

-- CreateBuildFileRequest
pub record CreateBuildFileRequest : Type 0 where
  pub type : String
  pub sub_type : String
  pub upload_type : String

abbrev is_resumable : String → Bool
is_resumable upload_type =
    upload_type == "deferred_resumable" || upload_type == "deferred-resumable"

abbrev sub_type_or_default : String → String
sub_type_or_default s = if is_empty s then "default" else s

-- `builds/{id}/{type}_{sub_type}_{uuid}`
abbrev file_storage_path : ℕ → String → String → Text → Text
file_storage_path build_id file_type sub_type uuid =
    (codes "builds/" ++ decimal build_id)
    ++ b'/' ∷ (codes file_type ++ b'_' ∷ (codes sub_type ++ b'_' ∷ uuid))

abbrev new_file : ℕ → String → String → Text → BuildFile
new_file build_id file_type sub_type path = record {
  id = 0;
  build_id = build_id;
  type = file_type;
  sub_type = sub_type;
  size = 0;
  state = uploading;
  storage_path = path;
  upload_url = [];
  last_accessed_at = 0;
  evicted_at = none;
  created_at = 0;
  updated_at = 0;
}

abbrev new_session : Text → BuildFile → UploadSession
new_session id file = record {
  id = id;
  build_file_id = file.id;
  storage_path = file.storage_path;
  size = 0;
  state = active;
  created_at = 0;
  updated_at = 0;
}

-- BuildFileUploadResponse
pub record BuildFileUploadResponse : Type 0 where
  pub id : ℕ
  pub upload_url : Text
  pub upload_headers : List (String × String)

-- A presigned URL wants the type that it was signed for.
abbrev upload_headers : String → List (String × String)
upload_headers upload_type =
    if is_resumable upload_type then [] else ("Content-Type", "application/octet-stream") ∷ []

-- FinalizedBuildFileResponse
pub record Finalized : Type 0 where
  pub id : ℕ
  pub size : ℕ
  pub state : FileState

module _ {e : Env} where
  -- GetBuildFiles
  unfoldable pub get_build_files :
      Option User
      → Option ℕ
      → Handler e (List WharfBuildFileResponse) (Response (List WharfBuildFileResponse))
  get_build_files user id = do
    build_id ← path_int id "invalid build id"
    build ← authorized_build user build_id
    files ← get_build_files_by_build_id build_id or_fail internal_error
    pure (json (new_wharf_build_file_responses e files))

  -- Where the client sends the bytes: an upload session, or a presigned URL.
  unfoldable pub upload_url_for : Bool → Origin → BuildFile → Handler e BuildFileUploadResponse Text
  upload_url_for true r file = do
    id ← new_uuid or_fail internal_error
    create_upload_session (new_session id file) or_fail internal_error
    pure (absolute_url r (codes "/wharf/upload-sessions/" ++ id))
  upload_url_for false r file =
      call (λ w. (ok (e.presign_put file.storage_path), w)) or_fail internal_error

  -- CreateBuildFile
  unfoldable pub create_build_file_handler :
      Option User
      → Option ℕ
      → Origin
      → Decoded CreateBuildFileRequest
      → Handler e BuildFileUploadResponse (Response BuildFileUploadResponse)
  create_build_file_handler user id origin body = do
    build_id ← path_int id "invalid build id"
    build ← authorized_build user build_id
    r ← decode_request body
    refuse_if (is_empty r.type) (problem 400 "missing type")
    let sub_type = sub_type_or_default r.sub_type
    uuid ← new_uuid or_fail internal_error
    let path = file_storage_path build_id r.type sub_type uuid
    file ← create_build_file (new_file build_id r.type sub_type path) or_fail internal_error
    url ← upload_url_for (is_resumable r.upload_type) origin file
    let linked = record file { upload_url = url }
    update_build_file linked or_fail internal_error
    pure (
        json (record {
          id = file.id;
          upload_url = url;
          upload_headers = upload_headers r.upload_type;
        }))

  -- The size that was promised is not the size in the store: the file and its build have failed.
  abbrev mismatch : ℕ → BuildFile → Handler e Finalized (Response Finalized)
  mismatch build_id file = do
    attempt (update_build_file (record file { state = FileState.failed }))
    attempt (check_and_update_build_state build_id)
    raise (problem 400 "uploaded size does not match finalized size")

  -- The goroutine that updates the build's state is run before the answer.
  abbrev accept : ℕ → BuildFile → ℕ → Handler e Finalized (Response Finalized)
  accept build_id file actual = do
    let done = record file { size = actual; state = uploaded }
    update_build_file done or_fail internal_error
    attempt (check_and_update_build_state build_id)
    pure (json (record { id = done.id; size = actual; state = uploaded }))

  -- FinalizeBuildFile; the size of the request is 0 where it promises none
  unfoldable pub finalize_build_file :
      Option User → Option ℕ → Option ℕ → Decoded ℕ → Handler e Finalized (Response Finalized)
  finalize_build_file user build_path file_path body = do
    build_id ← path_int build_path "invalid build id"
    file_id ← path_int file_path "invalid file id"
    build ← authorized_build user build_id
    size ← decode_request body
    file ← get_build_file_by_id file_id or_fail problem 404 "build file not found"
    refuse_if (not (file.build_id == build_id)) (problem 400 "build file does not belong to build")
    present ← file_exists file.storage_path or_fail internal_error
    refuse_if (not present) (problem 400 "file not found in storage - upload may have failed")
    actual ←
        head_object file.storage_path or_fail problem 500 "could not verify file size in storage"
    if ltb 0 size && not (actual == size)
        then mismatch build_id file
        else accept build_id file actual
