-- ===== src/Build/State.antt =====
-- The states of a build: `checkAndUpdateBuildState` of handlers/wharf_archive.go and what it calls.
pub mod Completion
pub mod Open
pub mod Written
pub mod Complete
use den_kit_stash.Base.{
  ℕ, zero, suc, String, Text, Bool, true, false, not, ◌&&◌, ◌||◌, ◌==◌, number_eq, text_eq,
  codes_eq, Option, none, some, List, [], ◌∷◌, ◌++◌, any, find, codes, ltb, if◌then◌else◌,
  ends_with, take, length, ◌-◌, is_blank,
}
use den_kit_stash.Model.{
  Build, BuildFile, Upload, FileState, BuildState, processing, completed, failed, uploaded,
  is_started, is_processing, is_uploaded, is_failed, is_empty,
}
use den_kit_stash.World.{Env, Action, Error, failure, ◌>>=◌, ◌>>◌, pure, raise, attempt, ◌or_fail◌}
use den_kit_stash.Names.Format.{optimized_archive_filename, archive_format_from_path}
use den_kit_stash.Names.Platforms.{channel_name_tokens, platforms_for_tokens}
use den_kit_stash.Database.Projects.{get_upload_by_id, update_upload}
use den_kit_stash.Database.Builds.{get_build_by_id, update_build, claim_build_processing}
use den_kit_stash.Database.Files.{get_build_files_by_build_id, create_build_file}
use den_kit_stash.Database.Channels.{get_channel_by_name, update_channel}
use den_kit_stash.Archive.Files.{is_ready}
use den_kit_stash.Archive.Patch.{
  apply_patch_step, read_parent_signature, materialize_archived_tree, compress_and_upload_archive,
  archive_format_from_metadata,
}
use den_kit_stash.Archive.Rebuild.{ensure_archive, proceed}

-- The last file of the kind in the loop that fills `filesByKind`.
abbrev pub last_ready : String → String → List BuildFile → Option BuildFile
last_ready file_type sub_type [] = none
last_ready file_type sub_type (f ∷ fs) =
    let rest = last_ready file_type sub_type fs in
    elim rest [ some g ↦ some g | none ↦ if is_ready file_type sub_type f then some f else none ]

abbrev has_size : Option BuildFile → Bool
has_size none = false
has_size (some f) = ltb 0 f.size

-- hasReadyRequiredFile
unfoldable pub has_ready_required_file : String → List BuildFile → Bool
has_ready_required_file file_type files = has_size (last_ready file_type "default" files)

-- `strings.TrimSuffix`
abbrev trim_suffix : Text → Text → Text
trim_suffix s suffix = if ends_with s suffix then take (length s - length suffix) s else s

abbrev new_platforms : Env → Text → String → String
new_platforms e filename old =
    let found = platforms_for_tokens (channel_name_tokens e.is_letter_or_digit filename) in
    if found == "[]" then old else found

abbrev archive_row : ℕ → Text → ℕ → BuildFile
archive_row build_id path size = record {
  id = 0;
  build_id = build_id;
  type = "archive";
  sub_type = "default";
  size = size;
  state = uploaded;
  storage_path = path;
  upload_url = [];
  last_accessed_at = 0;
  evicted_at = none;
  created_at = 0;
  updated_at = 0;
}

module _ {e : Env} where
  -- updateUploadSizeFromArchive
  unfoldable pub update_upload_size_from_archive :
      Build → Option BuildFile → Action e Error (Unit {0})
  update_upload_size_from_archive build none = pure tt
  update_upload_size_from_archive build (some file) =
      if ltb 0 file.size
      then (do
        upload ← get_upload_by_id build.upload_id
        if upload.size == file.size
            then pure tt
            else update_upload (record upload { size = file.size }))
      else pure tt

  -- updateUploadFromArchiveMetadata
  unfoldable pub update_upload_from_archive_metadata :
      Build → Option (Text × Text) → ℕ → Action e Error (Unit {0})
  update_upload_from_archive_metadata build none size = pure tt
  update_upload_from_archive_metadata build (some (filename, format)) size =
      if is_blank filename then pure tt else (do
        upload ← get_upload_by_id build.upload_id
        let packed = archive_format_from_metadata (some (filename, format))
        let name = optimized_archive_filename filename packed
        update_upload (record upload {
          filename = name;
          display_name = trim_suffix name (b'.' ∷ archive_format_from_path name);
          size = size;
          platforms = new_platforms e filename upload.platforms;
        }))

  -- advanceCompletedChannelHead
  unfoldable pub advance_completed_channel_head : Build → Action e Error (Unit {0})
  advance_completed_channel_head build =
      if is_empty build.channel_name then raise (failure "build has no channel name") else (do
        channel ←
            get_channel_by_name build.channel_name build.upload_id
            or_fail failure "failed to load channel"
        update_channel (record channel { current_build_id = some build.id }))

  -- The parent's tree and container, or the empty ones of a root build.
  unfoldable pub parent_tree : Option ℕ → Action e Error (e.Tree × Option e.Container)
  parent_tree none = pure (e.empty_tree, none)
  parent_tree (some parent_id) = do
    ensure_archive parent_id
    tree ← materialize_archived_tree parent_id
    signature ← read_parent_signature parent_id or_fail failure "failed to read parent signature"
    pure (tree, some signature)

  -- generateArchiveDefault
  unfoldable pub generate_archive_default : Build → Action e Error (Unit {0})
  generate_archive_default build = do
    proceed
    start ← parent_tree build.parent_build_id
    step ← apply_patch_step build start.0 start.1
    packed ← compress_and_upload_archive build step.tree
    update_upload_from_archive_metadata build packed.2 packed.1
    create_build_file (archive_row build.id packed.0 packed.1)
    pure tt

  -- The end of `checkAndUpdateBuildState`: all three files are there.
  unfoldable pub complete_build : Build → List BuildFile → Action e Error (Unit {0})
  complete_build build files = do
    update_upload_size_from_archive build (last_ready "archive" "default" files)
        or_fail failure "failed to update upload size"
    let done = record build { state = completed }
    update_build done or_fail failure "failed to update build state to completed"
    advance_completed_channel_head done

  -- The archive is generated; a failure marks the build as failed.
  unfoldable pub generate_or_fail : Build → Action e Error (Unit {0})
  generate_or_fail build = do
    generated ← attempt {F = Error} (generate_archive_default build)
    elim generated [
      | some _ ↦ pure tt
      | none ↦ do
        attempt {F = Error} (update_build (record build { state = BuildState.failed }))
        raise (failure "failed to generate archive/default")
    ]

-- Which branch `checkAndUpdateBuildState` takes for an open build with these files.
pub data Verdict : Type 0 where
  fail generate complete wait : Verdict

unfoldable pub verdict : BuildState → List BuildFile → Verdict
verdict state files =
    let has_patch = has_ready_required_file "patch" files in
    let has_signature = has_ready_required_file "signature" files in
    let has_archive = has_ready_required_file "archive" files in
    if any (λ f. is_failed f.state) files
    then fail
    else if has_patch && has_signature && not has_archive && is_started state
    then generate
    else if has_patch && has_signature && has_archive
    then complete
    else wait

abbrev pub is_open : BuildState → Bool
is_open state = is_started state || is_processing state

module _ {e : Env} where
  -- A build that another finalization has claimed is left to it.
  abbrev pub claim_or_leave : Build → Action e Error (Unit {0}) → Action e Error (Unit {0})
  claim_or_leave build again = do
    claimed ← claim_build_processing build.id
    elim claimed [
      | false ↦ pure tt
      | true ↦ do generate_or_fail (record build { state = processing }); again
    ]

  abbrev pub act :
      Build → List BuildFile → Verdict → Action e Error (Unit {0}) → Action e Error (Unit {0})
  act build files fail again = update_build (record build { state = BuildState.failed })
  act build files generate again = claim_or_leave build again
  act build files complete again = complete_build build files
  act build files wait again = pure tt

  abbrev pub examine : Build → Bool → Action e Error (Unit {0}) → Action e Error (Unit {0})
  examine build false again = pure tt
  examine build true again = do
    files ← get_build_files_by_build_id build.id or_fail failure "failed to get build files"
    act build files (verdict build.state files) again

  -- checkAndUpdateBuildState, with at most so many rounds; it calls itself after it has generated
  -- the archive
  unfoldable pub check_build_state : ℕ → ℕ → Action e Error (Unit {0})
  check_build_state zero build_id = raise (failure "no round is left")
  check_build_state (suc rounds) build_id = do
    build ← get_build_by_id build_id or_fail failure "failed to get build"
    examine build (is_open build.state) (λ w. check_build_state rounds build_id w)

  -- Two rounds are enough, since the second finds the build claimed.
  unfoldable pub check_and_update_build_state : ℕ → Action e Error (Unit {0})
  check_and_update_build_state build_id = check_build_state 2 build_id
