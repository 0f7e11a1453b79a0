-- ===== src/Archive/Patch.antt =====
-- One step of a patch chain, and packing its result: `applyPatchStep`, `validatePatchTargetContainer`,
-- `compressAndUploadArchive` and what they call.
use den_kit_stash.Base.{
  ℕ, String, Text, Bool, true, false, Option, none, some, List, [], ◌∷◌, ◌++◌, codes, decimal,
  length, if◌then◌else◌, is_blank, ◌==◌, codes_eq, ◌&&◌, not, text_leb,
}
use den_kit_stash.Model.{Build, BuildFile, is_uploaded}
use den_kit_stash.World.Tables.{order_by}
use den_kit_stash.World.{
  Env, Action, Error, failure, Result, ok, err, lift, ◌>>=◌, ◌>>◌, pure, from_option, ◌or_fail◌,
}
use den_kit_stash.Names.Format.{normalize_archive_format, archive_format_from_path}
use den_kit_stash.Archive.Files.{
  find_build_file, find_build_file_any_state, download_object, upload_object, new_uuid,
}

module _ (e : Env) where
  -- validatePatchTargetContainer: with no parent the patch must apply to the empty tree
  unfoldable pub validate_patch_target : e.Container → Option e.Container → Result Error (Unit {0})
  validate_patch_target patch_target none =
      if e.ensure_equal patch_target e.empty_container
      then ok tt
      else err (failure "patch target is not empty")
  validate_patch_target patch_target (some expected) =
      if e.ensure_equal patch_target expected
      then ok tt
      else err (failure "patch target tree does not match parent signature")

  abbrev pub require : Bool → String → Result Error (Unit {0})
  require true message = ok tt
  require false message = err (failure message)

-- What a step hands on: the tree, its container, and the container of the build's signature.
pub record Step (e : Env) : Type 0 where
  pub tree : e.Tree
  pub source : e.Container
  pub signature : e.Container

module _ {e : Env} where
  -- The part of `applyPatchStep` after the downloads: what the patch makes of the target tree.
  unfoldable pub apply_patch :
      List ℕ → List ℕ → e.Tree → Option e.Container → Action e Error (Step e)
  apply_patch patch signature_bytes target expected = do
    signature ←
        lift (from_option (failure "unreadable signature") (e.read_signature signature_bytes))
    patch_target ← lift (from_option (failure "unreadable patch") (e.patch_target patch))
    lift (validate_patch_target e patch_target expected)
    tree ← lift (from_option (failure "patch does not apply") (e.apply_patch patch target))
    source ← lift (from_option (failure "unreadable patch") (e.patch_source patch))
    lift (require e (e.ensure_equal source signature) "patch source tree does not match signature")
    pure (record { tree = tree; source = source; signature = signature })

  -- applyPatchStep
  unfoldable pub apply_patch_step : Build → e.Tree → Option e.Container → Action e Error (Step e)
  apply_patch_step build target expected = do
    patch_file ← find_build_file build.id "patch" "default" or_fail failure "no patch/default"
    signature_file ←
        find_build_file build.id "signature" "default" or_fail failure "no signature/default"
    patch ← download_object patch_file.storage_path
    signature_bytes ← download_object signature_file.storage_path
    apply_patch patch signature_bytes target expected

  -- readParentSignature
  unfoldable pub read_parent_signature : ℕ → Action e Error e.Container
  read_parent_signature build_id = do
    file ← find_build_file build_id "signature" "default"
    bytes ← download_object file.storage_path
    lift (from_option (failure "unreadable signature") (e.read_signature bytes))

-- createArchiveFromDirectory
unfoldable pub create_archive_from_directory :
    (e : Env) → List Text → e.Tree → Text → Result Error (List ℕ)
create_archive_from_directory e [] tree format =
    err (failure "cannot create archive from empty directory")
create_archive_from_directory e (first ∷ others) tree format =
    let entries = order_by text_leb (first ∷ others) in
    let f = normalize_archive_format format in
    if f == codes "tar"
    then from_option (failure "tar failed") (e.tar_create (codes "-cf") entries tree)
    else if f == codes "tar.gz"
    then from_option (failure "tar failed") (e.tar_create (codes "-czf") entries tree)
    else if f == codes "tar.bz2"
    then from_option (failure "tar failed") (e.tar_create (codes "-cjf") entries tree)
    else err (failure "unsupported archive format")

-- extractArchive
unfoldable pub extract_archive : (e : Env) → Text → List ℕ → Result Error e.Tree
extract_archive e path bytes =
    let f = archive_format_from_path path in
    if f == codes "zip"
    then from_option (failure "unreadable zip") (e.extract_zip bytes)
    else if f == codes "tar"
    then from_option (failure "tar failed") (e.tar_extract (codes "-xf") bytes)
    else if f == codes "tar.gz"
    then from_option (failure "tar failed") (e.tar_extract (codes "-xzf") bytes)
    else if f == codes "tar.bz2"
    then from_option (failure "tar failed") (e.tar_extract (codes "-xjf") bytes)
    else err (failure "unsupported archive format")

-- archiveFormatFromMetadata
unfoldable pub archive_format_from_metadata : Option (Text × Text) → Text
archive_format_from_metadata none = codes "zip"
archive_format_from_metadata (some (filename, format)) = normalize_archive_format format

-- The bytes of an archive in a format that `archiveFormatFromMetadata` gave.
unfoldable pub pack : (e : Env) → Text → e.Tree → Result Error (List ℕ)
unfolding create_archive_from_directory
pack e format tree =
    if format == codes "zip"
    then from_option (failure "zip failed") (e.compress_zip tree)
    else create_archive_from_directory e (e.top_level_entries tree) tree format

-- `builds/{id}/archive_default_{uuid}.{format}`
unfoldable pub archive_storage_path : ℕ → Text → Text → Text
archive_storage_path build_id uuid format =
    (codes "builds/" ++ decimal build_id)
    ++ b'/' ∷ ((codes "archive_default_" ++ uuid) ++ b'.' ∷ format)

-- The path of an archive that is uploaded and has a path.
abbrev warm_row : BuildFile → Option Text
warm_row f =
    if is_uploaded f.state && not (is_blank f.storage_path) then some f.storage_path else none

abbrev pub warm_path : Option BuildFile → Option Text
warm_path none = none
warm_path (some f) = warm_row f

module _ {e : Env} where
  -- materializeArchivedTree: the scratch copy is named `.parent.{format}`
  unfoldable pub materialize_archived_tree : ℕ → Action e Error e.Tree
  materialize_archived_tree build_id = do
    file ← find_build_file_any_state build_id "archive" "default"
    path ← lift (from_option (failure "no warm archive to materialize") (warm_path file))
    bytes ← download_object path
    lift (extract_archive e (codes "/.parent." ++ archive_format_from_path path) bytes)

  -- compressAndUploadArchive: the path, the size and the metadata
  unfoldable pub compress_and_upload_archive :
      Build → e.Tree → Action e Error (Text × ℕ × Option (Text × Text))
  compress_and_upload_archive build tree = do
    let metadata = e.read_metadata tree
    let format = archive_format_from_metadata metadata
    bytes ← lift (pack e format tree)
    uuid ← new_uuid
    let path = archive_storage_path build.id uuid format
    upload_object path bytes (length bytes)
    pure (path, length bytes, metadata)
