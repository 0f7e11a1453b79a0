-- ===== src/Upload/Session.antt =====
-- `StartUploadSession`, `PutUploadSession` and `commitUploadSession` of
-- handlers/wharf_upload_sessions.go.
pub mod Limits
pub mod Staging
pub mod Transfer
pub mod Held
pub mod Chunk
pub mod Commit
pub mod Answers
pub mod Replies
pub mod Reached
pub mod Refinement
pub mod Live
pub mod Progress
use den_kit_stash.Base.{
  ℕ, zero, suc, ◌-◌, ◌+◌, Text, Bool, true, false, not, Option, none, some, List, [], ◌∷◌, ◌++◌,
  ltb, ◌||◌, ◌&&◌, ◌==◌, number_eq, codes_eq, if◌then◌else◌, codes, take, length,
}
use den_kit_stash.Model.{UploadSession, SessionState, blank, active, completed}
use den_kit_stash.World.{
  Env, World, Action, Error, no_rows, failure, Result, ok, err, ◌>>=◌, ◌>>◌, pure, raise, lift,
  attempt, call, from_option, ◌or_fail◌,
}
use den_kit_stash.Http.{Response, Handler, json, problem, status, created, resume, internal_error}
use den_kit_stash.Database.Sessions.{get_upload_session_by_id, update_upload_session}
use den_kit_stash.Archive.Files.{upload_object}
use den_kit_stash.Archive.Rebuild.{proceed}
use den_kit_stash.Build.Access.{refuse_if}
use den_kit_stash.Build.Files.{Origin, absolute_url}
use den_kit_stash.Upload.Range.{add64, sub64, lt64, match_chunk, match_empty_final}

-- uploadSessionPath
abbrev pub upload_session_path : Text → Text
upload_session_path session_id = codes "storage/upload-sessions/" ++ session_id

abbrev pub zeros : ℕ → List ℕ
zeros zero = []
zeros (suc n) = 0 ∷ zeros n

-- `file.Truncate(size)`: a shorter file is filled up with zero bytes
abbrev pub truncated : ℕ → List ℕ → List ℕ
truncated size bytes = take size (bytes ++ zeros size)

abbrev pub or_empty : Option (List ℕ) → List ℕ
or_empty none = []
or_empty (some bytes) = bytes

-- `io.LimitReader(body, n)`; a negative limit reads nothing
abbrev pub limit_reader : List ℕ → ℕ → List ℕ
limit_reader body n = if lt64 n 0 then [] else take n body

abbrev pub write_file : (Text → Option (List ℕ)) → Text → List ℕ → Text → Option (List ℕ)
write_file files path bytes other = if path == other then some bytes else files other

-- The reply that tells the client how far the session is.
abbrev pub resume_range : {B : Type 0} → ℕ → Response B
resume_range zero = resume none
resume_range (suc n) = resume (some n)

abbrev pub is_done : SessionState → Bool
is_done completed = true
is_done _ = false

abbrev is_unset : SessionState → Bool
is_unset blank = true
is_unset _ = false

module _ {e : Env} where
  abbrev pub with_file : Text → (List ℕ → List ℕ) → Action e Error (Unit {0})
  with_file path change = call λ w.
      (ok tt, record w { staging = write_file w.staging path (change (or_empty (w.staging path))) })

  -- os.OpenFile with O_CREATE
  unfoldable pub open_staging : Text → Action e Error (Unit {0})
  open_staging path = with_file path (λ bytes. bytes)

  -- file.Truncate
  unfoldable pub truncate_staging : Text → ℕ → Action e Error (Unit {0})
  truncate_staging path size = with_file path (truncated size)

  -- io.Copy onto the end of the file: the count of bytes written
  unfoldable pub copy_to : Text → List ℕ → Action e Error ℕ
  copy_to path bytes = call λ w. (
    ok (length bytes),
    record w { staging = write_file w.staging path (or_empty (w.staging path) ++ bytes) },
  )

  -- os.Open, and the bytes that reading the file gives
  unfoldable pub read_staging : Text → Action e Error (List ℕ)
  read_staging path = call (λ w. (from_option no_rows (w.staging path), w))

  -- commitUploadSession
  unfoldable pub commit_upload_session : UploadSession → Text → Action e Error (Unit {0})
  commit_upload_session session path = do
    bytes ← read_staging path or_fail failure "could not open completed upload"
    upload_object session.storage_path bytes session.size
        or_fail failure "could not store completed upload"
    update_upload_session (record session { state = completed })
        or_fail failure "could not mark upload session completed"

abbrev Reply : Env → Type 0
Reply e = Handler e (Unit {0}) (Response (Unit {0}))

module _ {e : Env} where
  abbrev start_if_unset : UploadSession → Handler e (Unit {0}) (Unit {0})
  start_if_unset session =
      if is_unset session.state
      then (do attempt (update_upload_session (record session { state = active })); pure tt)
      else pure tt

  -- StartUploadSession
  unfoldable pub start_upload_session : Origin → Text → Reply e
  start_upload_session origin session_id = do
    session ← get_upload_session_by_id session_id or_fail problem 404 "upload session not found"
    start_if_unset session
    pure (created (absolute_url origin (codes "/wharf/upload-sessions/" ++ session.id)))

  -- The last request, without bytes: `bytes start--1/total`.
  unfoldable pub put_empty_final : ℕ → UploadSession → ℕ → ℕ → Reply e
  put_empty_final limit session start total = do
    refuse_if (lt64 limit total) (problem 413 "upload session exceeds maximum size")
    refuse_if (not (start == session.size) || not (total == session.size))
        (resume_range session.size)
    commit_upload_session session (upload_session_path session.id) or_fail internal_error
    pure (status 200)

  -- The checks on the total of a chunk.
  abbrev pub check_total : ℕ → ℕ → ℕ → Option ℕ → Handler e (Unit {0}) (Unit {0})
  check_total limit start size none = pure tt
  check_total limit start size (some total) = do
    refuse_if (lt64 limit total) (problem 413 "upload session exceeds maximum size")
    refuse_if (not (add64 start size == total)) (problem 400 "final upload size mismatch")

  -- The bytes of a chunk go behind those that the session has.
  unfoldable pub stage_chunk : UploadSession → ℕ → List ℕ → Handler e (Unit {0}) (Unit {0})
  stage_chunk session size body = do
    let path = upload_session_path session.id
    proceed or_fail problem 500 "could not prepare upload session"
    open_staging path or_fail problem 500 "could not open upload session"
    truncate_staging path session.size or_fail problem 500 "could not prepare upload session"
    proceed or_fail problem 500 "could not prepare upload session"
    written ←
        copy_to path (limit_reader body size) or_fail problem 500 "could not write upload bytes"
    proceed or_fail problem 500 "could not close upload session"
    refuse_if (not (written == size)) (problem 400 "content length does not match content range")

  -- The session after the chunk: it goes on, or it is committed.
  unfoldable pub finish_chunk : UploadSession → Option ℕ → Reply e
  finish_chunk session none = do
    update_upload_session session or_fail problem 500 "could not update upload session"
    raise (resume_range session.size)
  finish_chunk session (some total) = do
    refuse_if (not (session.size == total)) (problem 400 "final upload size mismatch")
    commit_upload_session session (upload_session_path session.id) or_fail internal_error
    pure (status 200)

  -- A chunk: `bytes start-end/total`.
  unfoldable pub put_chunk : ℕ → UploadSession → ℕ → ℕ → Option ℕ → List ℕ → Reply e
  put_chunk limit session start end total body = do
    refuse_if (not (start == session.size)) (resume_range session.size)
    refuse_if (lt64 end start) (problem 400 "invalid content range")
    let size = add64 (sub64 end start) 1
    refuse_if (lt64 limit (add64 session.size size))
        (problem 413 "upload session exceeds maximum size")
    check_total limit start size total
    stage_chunk session size body
    finish_chunk (record session { size = add64 session.size size }) total

  abbrev pub put_final_or_refuse : ℕ → UploadSession → Option (ℕ × ℕ) → Reply e
  put_final_or_refuse limit session none = pure (problem 400 "invalid content range")
  put_final_or_refuse limit session (some (start, total)) =
      put_empty_final limit session start total

  abbrev pub put_ranged : ℕ → UploadSession → Text → Option (ℕ × ℕ × Option ℕ) → List ℕ → Reply e
  put_ranged limit session range none body =
      put_final_or_refuse limit session (match_empty_final range)
  put_ranged limit session range (some (start, end, total)) body =
      put_chunk limit session start end total body

  -- PutUploadSession, for a limit that `maxUploadSessionBytes` gives
  unfoldable pub put_upload_session : ℕ → Text → Text → List ℕ → Reply e
  put_upload_session limit session_id range body = do
    session ← get_upload_session_by_id session_id or_fail problem 404 "upload session not found"
    refuse_if (is_done session.state) (status 200)
    refuse_if (range == codes "bytes */*") (resume_range session.size)
    put_ranged limit session range (match_chunk range) body
