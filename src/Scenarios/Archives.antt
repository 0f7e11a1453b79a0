-- ===== src/Scenarios/Archives.antt =====
-- The theorems on archives, builds and upgrade paths at the builds of the small stash.
use den_kit_stash.Base.{
  ◌≡◌, refl, ◌⊎◌, ◌<◌, ◌↔◌, ◌^◌, ◌%◌, true, some, [], ◌∷◌, codes, ◌++◌, reverse, length, All, ◌≤◌,
  ◌≢◌, arith,
}
use den_kit_stash.Model.{Build, BuildFile}
use den_kit_stash.World.{ok, query, query_row, exec, call, err, failure}
use den_kit_stash.World.Reads.{Untouched}
use den_kit_stash.Database.Builds.{find_build, get_build_by_id, claim_build_processing}
use den_kit_stash.Database.Files.{get_build_files_by_build_id}
use den_kit_stash.Archive.Files.{
  find_build_file, find_build_file_any_state, file_exists, head_object,
}
use den_kit_stash.Archive.Gc.{ArchiveGcConfig, no_stats, evict_archive, mark_and_delete}
use den_kit_stash.Archive.Gc.Safety.{IsEviction, evict_archive_safe}
use den_kit_stash.Archive.Gc.Order.{IsMarked, mark_and_delete-IsMarked}
use den_kit_stash.Archive.Collect.{
  collect_rebuild_chain, walk_parents, check_links, has_warm_archive, max_archive_chain_length,
}
use den_kit_stash.Archive.Collect.Chain.{IsCollected, HasLink, collect_rebuild_chain-IsCollected}
use den_kit_stash.Archive.Rebuild.{archive_lock_key}
use den_kit_stash.Archive.Rebuild.Lock.{archive_lock_key_shared}
use den_kit_stash.Build.State.{check_and_update_build_state}
use den_kit_stash.Build.State.Complete.{check_and_update_build_state-IsCompletedWell}
use den_kit_stash.Build.State.Open.{IsCompletedWell}
use den_kit_stash.Build.State.Completion.{claim_once}
use den_kit_stash.Download.UpgradePath.{resolve_upgrade_path, walk_back, require_patches}
use den_kit_stash.Download.UpgradePath.Fuel.{resolve_upgrade_path_ends}
use den_kit_stash.Download.UpgradePath.Path.{IsUpgradePath, resolve_upgrade_path_sound}
use den_kit_stash.Names.Format.{normalize_archive_format, archive_format_from_path}
use den_kit_stash.Names.Format.RoundTrip.{spelling, tar_gz, archive_format_from_path-spelling}
use den_kit_stash.Names.Format.Spelling.{tgz_name, normalize_archive_format-spelling}
use den_kit_stash.Names.Filename.{sanitize_filename_part}
use den_kit_stash.Names.Filename.Bounds.{IsSafe, StartsClean, sanitize_filename_part-IsSafe}
use den_kit_stash.Scenarios.Stash.{
  stash_env, stash, stash_db, stash_file, first_build, second_build,
}

abbrev config : ArchiveGcConfig
config = record { enabled = true; ttl = 10; interval = 1; batch_limit = 100 }

abbrev old_archive : BuildFile
old_archive = stash_file 3 1 "archive"

evict_archive_safe_example :
    Untouched stash.db stash.objects (evict_archive config old_archive no_stats stash).1
    ⊎ IsEviction config old_archive stash (evict_archive config old_archive no_stats stash).1
evict_archive_safe_example = evict_archive_safe config old_archive no_stats stash

mark_and_delete-IsMarked_example :
    ((mark_and_delete old_archive no_stats stash).1.objects ≡ stash.objects)
    ⊎ IsMarked 3 (mark_and_delete old_archive no_stats stash).1
mark_and_delete-IsMarked_example = mark_and_delete-IsMarked old_archive no_stats stash

collect_rebuild_chain-IsCollected_example :
    IsCollected stash_env stash_db stash.objects second_build max_archive_chain_length
      (second_build ∷ [], some first_build)
    × All (HasLink stash_db) (second_build ∷ [])
unfolding collect_rebuild_chain walk_parents check_links has_warm_archive find_build_file_any_state
    file_exists head_object get_build_by_id query_row find_build_file get_build_files_by_build_id
    query call
collect_rebuild_chain-IsCollected_example =
    collect_rebuild_chain-IsCollected second_build (second_build ∷ [], some first_build) stash refl

resolve_upgrade_path_sound_example :
    (target : Build) × (find_build stash_db 2 ≡ some target)
    × IsUpgradePath stash_db 1 target (first_build ∷ second_build ∷ [])
unfolding resolve_upgrade_path walk_back require_patches get_build_by_id query_row find_build_file
    get_build_files_by_build_id query call
resolve_upgrade_path_sound_example =
    resolve_upgrade_path_sound 5 1 2 (first_build ∷ second_build ∷ []) stash refl

resolve_upgrade_path_ends_example :
    (resolve_upgrade_path 3 1 2 stash).0 ≢ err (failure "out of fuel")
resolve_upgrade_path_ends_example =
    resolve_upgrade_path_ends 3 1 2 stash (refl, (refl, (refl, tt))) (omega arith)

check_and_update_build_state-IsCompletedWell_example :
    IsCompletedWell 3 stash_db.builds.rows (check_and_update_build_state 3 stash).1
check_and_update_build_state-IsCompletedWell_example =
    check_and_update_build_state-IsCompletedWell 3 stash refl

claim_once_example : ¬ ((claim_build_processing 3 (claim_build_processing 3 stash).1).0 ≡ ok true)
unfolding claim_build_processing exec
claim_once_example = claim_once 3 true stash (claim_build_processing 3 stash).1 refl refl

archive_lock_key_shared_example :
    (archive_lock_key 1 < 2 ^ 63)
    × ((archive_lock_key 1 ≡ archive_lock_key 2) ↔ (1 % 2 ^ 32 ≡ 2 % 2 ^ 32))
archive_lock_key_shared_example = archive_lock_key_shared 1 2 (omega arith) (omega arith)

archive_format_from_path-spelling_example :
    archive_format_from_path (codes "builds" ++ b'/' ∷ (codes "game" ++ b'.' ∷ spelling tar_gz))
    ≡ spelling tar_gz
archive_format_from_path-spelling_example =
    archive_format_from_path-spelling (codes "builds") (codes "game") tar_gz refl

normalize_archive_format-spelling_example :
    normalize_archive_format (codes " " ++ (codes "TGz" ++ codes "  ")) ≡ spelling tar_gz
normalize_archive_format-spelling_example =
    normalize_archive_format-spelling tgz_name (codes " ") (codes "TGz") (codes "  ") (refl, tt)
      (refl, (refl, tt)) refl

sanitize_filename_part-IsSafe_example :
    All IsSafe (sanitize_filename_part (codes "-My Game!"))
    × (length (sanitize_filename_part (codes "-My Game!")) ≤ 81)
    × StartsClean (sanitize_filename_part (codes "-My Game!"))
    × StartsClean (reverse (sanitize_filename_part (codes "-My Game!")))
sanitize_filename_part-IsSafe_example = sanitize_filename_part-IsSafe (codes "-My Game!")
