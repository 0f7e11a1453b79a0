-- ===== src/Archive/Rebuild.antt =====
-- handlers/wharf_rebuild.go: an archive that was evicted is made again from its patch chain.
pub mod Bits
pub mod Lock
use den_kit_stash.Base.{
  ℕ, ◌+◌, ◌*◌, ◌%◌, ◌^◌, Text, Bool, true, false, not, Option, none, some, List, [], ◌∷◌,
  if◌then◌else◌,
}
use den_kit_stash.Model.{Build, BuildFile, is_completed, uploaded, rebuilding, evicted}
use den_kit_stash.World.{
  Env, World, Action, Error, failure, Result, ok, err, ◌>>=◌, ◌>>◌, pure, raise, attempt, call,
  ◌or_fail◌, ◌then_always◌,
}
use den_kit_stash.Database.Builds.{get_build_by_id}
use den_kit_stash.Database.Files.{create_build_file, update_build_file, touch_build_file_access}
use den_kit_stash.Archive.Files.{find_build_file_any_state, file_exists}
use den_kit_stash.Archive.Patch.{
  Step, apply_patch_step, read_parent_signature, materialize_archived_tree,
  compress_and_upload_archive, warm_path,
}
use den_kit_stash.Archive.Rebuild.Bits.{or_bits, and_bits, shift}
use den_kit_stash.Archive.Collect.{collect_rebuild_chain}

-- archiveLockNamespace
abbrev pub archive_lock_namespace : ℕ
archive_lock_namespace = 0x44454e4b

-- archiveLockKey
unfoldable pub archive_lock_key : ℕ → ℕ
archive_lock_key build_id =
    or_bits 64 (shift 32 archive_lock_namespace) (and_bits 64 build_id 0xffffffff)

abbrev pub flat : Option (Option BuildFile) → Option BuildFile
flat none = none
flat (some f) = f

abbrev pub new_archive_row : ℕ → BuildFile
new_archive_row build_id = record {
  id = 0;
  build_id = build_id;
  type = "archive";
  sub_type = "default";
  size = 0;
  state = rebuilding;
  storage_path = [];
  upload_url = [];
  last_accessed_at = 0;
  evicted_at = none;
  created_at = 0;
  updated_at = 0;
}

abbrev pub was_evicted : Option BuildFile → Bool
was_evicted none = false
was_evicted (some file) = elim file.evicted_at [ none ↦ false | some t ↦ true ]

module _ {e : Env} where
  -- AcquireBuildArchiveLock waits for the lock; Release gives it back.
  unfoldable pub acquire_build_archive_lock : ℕ → Action e Error ℕ
  unfolding archive_lock_key
  acquire_build_archive_lock build_id = call (λ w. (ok (archive_lock_key build_id), w))

  unfoldable pub release_lock : Action e Error (Unit {0})
  release_lock = call (λ w. (ok tt, w))

  -- TryAcquireBuildArchiveLock
  unfoldable pub try_acquire_build_archive_lock : ℕ → Action e Error Bool
  try_acquire_build_archive_lock build_id = call (λ w. (ok (e.lock_free w.calls), w))

  -- A step on the scratch directory, or a look at the context's deadline.
  unfoldable pub proceed : Action e Error (Unit {0})
  proceed = call (λ w. (ok tt, w))

  abbrev pub touched : Option BuildFile → Bool → Action e Error (Option BuildFile)
  touched (some file) true = do
    attempt {F = Error} (touch_build_file_access file.id)
    pure (some file)
  touched _ _ = pure none

  abbrev pub check_object : Option BuildFile → Option Text → Action e Error (Option BuildFile)
  check_object file none = pure none
  check_object file (some path) = do present ← file_exists path; touched file present

  -- warmArchive
  unfoldable pub warm_archive : ℕ → Action e Error (Option BuildFile)
  warm_archive build_id = do
    found ← attempt (find_build_file_any_state build_id "archive" "default")
    check_object (flat found) (warm_path (flat found))

  -- The loop of `replayArchiveChain`: the tree after the last step.
  unfoldable pub replay_steps : List Build → e.Tree → Option e.Container → Action e Error e.Tree
  replay_steps [] tree expected = pure tree
  replay_steps (build ∷ rest) tree expected = do
    proceed
    step ← apply_patch_step build tree expected
    replay_steps rest step.tree (some step.signature)

  -- The tree and the container from which the replay starts.
  unfoldable pub replay_base : Option Build → Action e Error (e.Tree × Option e.Container)
  replay_base none = pure (e.empty_tree, none)
  replay_base (some base) = do
    tree ← materialize_archived_tree base.id
    signature ← read_parent_signature base.id
    pure (tree, some signature)

  -- `replayArchiveChain` up to the upload
  unfoldable pub replay_tree : Build → Action e Error e.Tree
  replay_tree build = do
    found ← collect_rebuild_chain build
    proceed
    start ← replay_base found.1
    replay_steps found.0 start.0 start.1

  -- replayArchiveChain; it raises the row as it left it
  unfoldable pub replay_archive_chain : Build → BuildFile → Action e BuildFile BuildFile
  replay_archive_chain build archive_file = do
    tree ← replay_tree build or_fail archive_file
    packed ← compress_and_upload_archive build tree or_fail archive_file
    let rebuilt = record archive_file {
      state = uploaded;
      storage_path = packed.0;
      size = packed.1;
      evicted_at = none;
    }
    update_build_file rebuilt or_fail rebuilt
    attempt {F = BuildFile} (touch_build_file_access rebuilt.id)
    pure rebuilt

  abbrev pub mark_rebuilding : ℕ → Option BuildFile → Action e Error BuildFile
  mark_rebuilding build_id none = create_build_file (new_archive_row build_id)
  mark_rebuilding build_id (some file) = do
    let marked = record file { state = rebuilding }
    update_build_file marked
    pure marked

  -- The row goes back to the evicted state, so that the next request tries again.
  abbrev pub revert : Bool → BuildFile → Action e Error (Unit {0})
  revert false file = pure tt
  revert true file = update_build_file (record file { state = evicted })

  abbrev pub require_completed : Bool → Action e Error (Unit {0})
  require_completed true = pure tt
  require_completed false =
      raise (failure "cannot rebuild archive of a build that is not completed")

  abbrev pub recovered : Bool → Result BuildFile BuildFile → Action e Error BuildFile
  recovered evicted_before (ok rebuilt) = pure rebuilt
  recovered evicted_before (err left) = do
    attempt {F = Error} (revert evicted_before left)
    raise (failure "failed to rebuild archive")

  abbrev pub recover : Action e BuildFile BuildFile → Bool → Action e Error BuildFile
  recover m evicted_before w = let r = m w in recovered evicted_before r.0 r.1

  -- rebuildArchive
  unfoldable pub rebuild_archive : ℕ → Action e Error BuildFile
  rebuild_archive build_id = do
    build ← get_build_by_id build_id or_fail failure "build not found"
    require_completed (is_completed build.state)
    found ← find_build_file_any_state build_id "archive" "default"
    archive_file ← mark_rebuilding build_id found
    recover (replay_archive_chain build archive_file) (was_evicted found)

  abbrev pub ensured : ℕ → Option BuildFile → Action e Error BuildFile → Action e Error BuildFile
  ensured build_id (some file) otherwise = pure file
  ensured build_id none otherwise = otherwise

  -- ensureArchive
  unfoldable pub ensure_archive : ℕ → Action e Error BuildFile
  ensure_archive build_id = do
    first ← warm_archive build_id
    ensured build_id first (do
      acquire_build_archive_lock build_id
      (do second ← warm_archive build_id; ensured build_id second (rebuild_archive build_id))
          then_always release_lock)
