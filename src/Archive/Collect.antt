-- ===== src/Archive/Collect.antt =====
-- `collectRebuildChain` of handlers/wharf_rebuild.go: the builds from which an archive is replayed.
pub mod Warm
pub mod Chain
use den_kit_stash.Base.{ℕ, zero, suc, Bool, true, false, Option, none, some, List, [], ◌∷◌}
use den_kit_stash.Model.{Build, BuildFile}
use den_kit_stash.World.{Env, Action, Error, failure, ◌>>=◌, ◌>>◌, pure, raise, attempt, ◌or_fail◌}
use den_kit_stash.Database.Builds.{get_build_by_id}
use den_kit_stash.Archive.Files.{find_build_file, find_build_file_any_state, file_exists}
use den_kit_stash.Archive.Patch.{warm_path}

abbrev pub max_archive_chain_length : ℕ
max_archive_chain_length = 10000

abbrev pub path_of : Option (Option BuildFile) → Option (List ℕ)
path_of none = none
path_of (some f) = warm_path f

module _ {e : Env} where
  abbrev pub object_of : Option (List ℕ) → Action e Error Bool
  object_of none = pure false
  object_of (some path) = file_exists path

  -- The build's archive row is uploaded and its object is there; an error counts as no.
  unfoldable pub has_warm_archive : ℕ → Action e Error Bool
  has_warm_archive build_id = do
    file ← attempt (find_build_file_any_state build_id "archive" "default")
    object_of (path_of file)

  -- The walk to the parents. The number is how many more links the chain may take, so that the test
  -- of `maxArchiveChainLength` is whether it is zero.
  unfoldable pub walk_parents :
      ℕ → List Build → Option ℕ → Action e Error (List Build × Option Build)
  walk_parents n chain none = pure (chain, none)
  walk_parents zero chain (some parent_id) = raise (failure "parent chain exceeds the limit")
  walk_parents (suc n) chain (some parent_id) = do
    parent ← get_build_by_id parent_id or_fail failure "parent build not found"
    warm ← has_warm_archive parent.id
    elim warm [
      | true ↦ pure (chain, some parent)
      | false ↦ walk_parents n (parent ∷ chain) parent.parent_build_id
    ]

  -- Every link has its patch and its signature.
  unfoldable pub check_links : List Build → Action e Error (Unit {0})
  check_links [] = pure tt
  check_links (build ∷ rest) = do
    find_build_file build.id "patch" "default" or_fail failure "missing patch/default"
    find_build_file build.id "signature" "default" or_fail failure "missing signature/default"
    check_links rest

  -- collectRebuildChain: the chain, oldest first, and the ancestor whose archive is warm
  unfoldable pub collect_rebuild_chain : Build → Action e Error (List Build × Option Build)
  collect_rebuild_chain build = do
    found ← walk_parents max_archive_chain_length (build ∷ []) build.parent_build_id
    check_links found.0
    pure found
