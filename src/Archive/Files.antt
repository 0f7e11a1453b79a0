-- ===== src/Archive/Files.antt =====
-- Looking up a build's files, and moving objects between the store and the scratch directory.
pub mod Ready
use den_kit_stash.Base.{
  ℕ, suc, String, Text, Bool, true, false, ◌&&◌, ◌==◌, text_eq, Option, none, some, List, find, not,
  is_blank,
}
use den_kit_stash.Model.{BuildFile, is_uploaded}
use den_kit_stash.World.{
  Env, World, Action, Error, no_rows, failure, ok, lift, ◌>>=◌, ◌>>◌, pure, call, from_option,
  attempt,
}
use den_kit_stash.Database.Files.{get_build_files_by_build_id}

abbrev pub has_kind : String → String → BuildFile → Bool
has_kind file_type sub_type f = f.type == file_type && f.sub_type == sub_type

abbrev pub is_ready : String → String → BuildFile → Bool
is_ready file_type sub_type f = has_kind file_type sub_type f && is_uploaded f.state

module _ {e : Env} where
  -- findBuildFile
  unfoldable pub find_build_file : ℕ → String → String → Action e Error BuildFile
  find_build_file build_id file_type sub_type = do
    files ← get_build_files_by_build_id build_id
    lift (from_option (failure "build file not found") (find (is_ready file_type sub_type) files))

  -- findBuildFileAnyState; no file is no error
  unfoldable pub find_build_file_any_state : ℕ → String → String → Action e Error (Option BuildFile)
  find_build_file_any_state build_id file_type sub_type = do
    files ← get_build_files_by_build_id build_id
    pure (find (has_kind file_type sub_type) files)

  -- storage.Head: the size of an object
  unfoldable pub head_object : Text → Action e Error ℕ
  head_object path = call (λ w. (from_option no_rows (e.head w.objects path), w))

  -- downloadObject
  unfoldable pub download_object : Text → Action e Error (List ℕ)
  download_object path = call (λ w. (from_option no_rows (e.get w.objects path), w))

  -- uploadObject, and storage.Put of so many bytes
  unfoldable pub upload_object : Text → List ℕ → ℕ → Action e Error Unit
  upload_object path bytes size =
      call (λ w. (ok tt, record w { objects = e.put w.objects path bytes size }))

  -- storage.Delete
  unfoldable pub delete_object : Text → Action e Error Unit
  delete_object path = call (λ w. (ok tt, record w { objects = e.delete w.objects path }))

  abbrev pub new_uuid : Action e Error Text
  new_uuid w = (ok (e.uuid w.calls), record w { calls = suc w.calls })

  -- FileExists
  unfoldable pub file_exists : Text → Action e Error Bool
  file_exists path = do found ← attempt (head_object path); pure (is_some found)
    where
      is_some : Option ℕ → Bool
      is_some none = false
      is_some (some n) = true
