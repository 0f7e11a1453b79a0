-- ===== src/Archive/Gc.antt =====
-- handlers/archive_gc.go: the eviction of archives that nobody asked for in a while.
pub mod Worker
pub mod Guards
pub mod Evicted
pub mod Effect
pub mod Safety
pub mod Order
use den_kit_stash.Base.{
  ℕ, ◌+◌, ◌-◌, Text, Bool, true, false, not, ◌&&◌, ◌||◌, Option, none, some, List, [], ◌∷◌, ltb,
  is_blank, if◌then◌else◌, String,
}
use den_kit_stash.Model.{BuildFile, Build, is_completed, is_uploaded, is_evicted, evicted}
use den_kit_stash.World.{
  Env, World, Action, Error, failure, Result, ok, err, ◌>>=◌, ◌>>◌, pure, raise, attempt, time_now,
  ◌or_fail◌, ◌then_always◌,
}
use den_kit_stash.Database.Builds.{get_build_by_id}
use den_kit_stash.Database.Files.{
  get_build_file_by_id, update_build_file, is_channel_head, list_evictable_archive_files,
  list_evicted_archive_files_with_storage,
}
use den_kit_stash.Archive.Files.{find_build_file, head_object, delete_object}
use den_kit_stash.Archive.Rebuild.{try_acquire_build_archive_lock, release_lock, proceed}

-- ArchiveGCConfig; the times are in the unit of the clock
pub record ArchiveGcConfig : Type 0 where
  pub enabled : Bool
  pub ttl : ℕ
  pub interval : ℕ
  pub batch_limit : ℕ

pub record ArchiveGcStats : Type 0 where
  pub evicted_files : ℕ
  pub bytes_freed : ℕ
  pub skipped_lock : ℕ
  pub skipped_guard : ℕ
  pub swept_objects : ℕ
  pub errors : ℕ

abbrev pub no_stats : ArchiveGcStats
no_stats = record {
  evicted_files = 0;
  bytes_freed = 0;
  skipped_lock = 0;
  skipped_guard = 0;
  swept_objects = 0;
  errors = 0;
}

abbrev pub skip_lock : ArchiveGcStats → ArchiveGcStats
skip_lock s = record s { skipped_lock = s.skipped_lock + 1 }

abbrev pub skip_guard : ArchiveGcStats → ArchiveGcStats
skip_guard s = record s { skipped_guard = s.skipped_guard + 1 }

abbrev pub count_error : ArchiveGcStats → ArchiveGcStats
count_error s = record s { errors = s.errors + 1 }

abbrev pub count_evicted : ℕ → ArchiveGcStats → ArchiveGcStats
count_evicted size s = record s {
  evicted_files = s.evicted_files + 1;
  bytes_freed = s.bytes_freed + size;
}

abbrev count_swept : ArchiveGcStats → ArchiveGcStats
count_swept s = record s { swept_objects = s.swept_objects + 1 }

-- `time.Now().Add(-cfg.TTL)`, and whether a time is after it
abbrev pub is_recent : ℕ → ℕ → ℕ → Bool
is_recent now ttl accessed = ltb now (accessed + ttl)

-- An eviction ends early by raising the statistics that it leaves.
abbrev pub Eviction : Env → Type 0 → Type 0
Eviction e A = Action e ArchiveGcStats A

abbrev merged : Result ArchiveGcStats ArchiveGcStats → ArchiveGcStats
merged (ok s) = s
merged (err s) = s

abbrev swept : Option Bool → Bool
swept (some true) = true
swept _ = false

module _ {e : Env} where
  -- `continue` the guard, or skip
  abbrev pub keep_going : Bool → ArchiveGcStats → Eviction e (Unit {0})
  keep_going true s = pure tt
  keep_going false s = raise s

  -- The patch or the signature of the build is uploaded, has a path, and its object is there.
  unfoldable pub require_stored : ℕ → String → ArchiveGcStats → Eviction e (Unit {0})
  require_stored build_id required s = do
    file ← find_build_file build_id required "default" or_fail skip_guard s
    keep_going (not (is_blank file.storage_path)) (skip_guard s)
    head_object file.storage_path or_fail skip_guard s
    pure tt

  -- What `evictArchive` checks again under the lock, row by row.
  unfoldable pub reverify : ArchiveGcConfig → BuildFile → ArchiveGcStats → Eviction e BuildFile
  unfolding require_stored
  reverify cfg candidate s = do
    file ← get_build_file_by_id candidate.id or_fail count_error s
    keep_going (is_uploaded file.state && not (is_blank file.storage_path)) (skip_guard s)
    now ← time_now
    keep_going (not (is_recent now cfg.ttl file.last_accessed_at)) (skip_guard s)
    is_head ← is_channel_head file.build_id or_fail skip_guard s
    keep_going (not is_head) (skip_guard s)
    build ← get_build_by_id file.build_id or_fail skip_guard s
    keep_going (is_completed build.state) (skip_guard s)
    require_stored file.build_id "patch" s
    require_stored file.build_id "signature" s
    pure file

  -- Mark first, delete second: a crash in between leaves an evicted row with its object.
  unfoldable pub mark_and_delete : BuildFile → ArchiveGcStats → Eviction e ArchiveGcStats
  mark_and_delete file s = do
    now ← time_now
    let marked = record file { state = evicted; evicted_at = some now }
    update_build_file marked or_fail count_error s
    delete_object marked.storage_path or_fail count_error s
    let s' = count_evicted marked.size s
    update_build_file (record marked { storage_path = [] }) or_fail count_error s'
    pure s'

  abbrev pub locked_eviction :
      ArchiveGcConfig → BuildFile → ArchiveGcStats → Bool → Eviction e ArchiveGcStats
  locked_eviction cfg candidate s false = raise (skip_lock s)
  locked_eviction cfg candidate s true =
      (do file ← reverify cfg candidate s; mark_and_delete file s) then_always release_lock

  -- evictArchive
  unfoldable pub evict_archive :
      ArchiveGcConfig → BuildFile → ArchiveGcStats → Eviction e ArchiveGcStats
  unfolding reverify mark_and_delete
  evict_archive cfg candidate s = do
    acquired ← try_acquire_build_archive_lock candidate.build_id or_fail count_error s
    locked_eviction cfg candidate s acquired

  abbrev settled : Eviction e ArchiveGcStats → Action e Error ArchiveGcStats
  settled m w = let r = m w in (ok (merged r.0), r.1)

  -- The loop of `runArchiveGCOnce`; it stops where the context is done.
  unfoldable pub evict_all :
      ArchiveGcConfig → List BuildFile → ArchiveGcStats → Action e Error ArchiveGcStats
  evict_all cfg [] s = pure s
  evict_all cfg (candidate ∷ rest) s = do
    live ← attempt {F = Error} proceed
    elim live [
      | none ↦ pure s
      | some _ ↦ do s' ← settled (evict_archive cfg candidate s); evict_all cfg rest s'
    ]

  abbrev sweep_current : BuildFile → Bool → Action e Error Bool
  sweep_current current false = pure false
  sweep_current current true = do
    delete_object current.storage_path
    update_build_file (record current { storage_path = [] })
    pure true

  -- A row that is still evicted and still has a path: delete the object, then clear the path.
  unfoldable pub sweep_row : BuildFile → Action e Error Bool
  sweep_row row = do
    current ← get_build_file_by_id row.id
    sweep_current current (is_evicted current.state && not (is_blank current.storage_path))

  abbrev sweep_locked : BuildFile → Option Bool → ArchiveGcStats → Action e Error ArchiveGcStats
  sweep_locked row (some true) s = do
    done ← attempt {F = Error} (sweep_row row)
    attempt {F = Error} release_lock
    pure (if swept done then count_swept s else s)
  sweep_locked row _ s = pure s

  -- The loop of `sweepEvictedObjects`
  unfoldable pub sweep_all : List BuildFile → ArchiveGcStats → Action e Error ArchiveGcStats
  unfolding sweep_row
  sweep_all [] s = pure s
  sweep_all (row ∷ rest) s = do
    live ← attempt {F = Error} proceed
    elim live [
      | none ↦ pure s
      | some _ ↦ do
        acquired ← attempt {F = Error} (try_acquire_build_archive_lock row.build_id)
        s' ← sweep_locked row acquired s
        sweep_all rest s'
    ]

  -- sweepEvictedObjects
  unfoldable pub sweep_evicted_objects : ArchiveGcStats → Action e Error ArchiveGcStats
  sweep_evicted_objects s = do
    leftovers ← attempt {F = Error} (list_evicted_archive_files_with_storage 1000)
    elim leftovers [ none ↦ pure (count_error s) | some rows ↦ sweep_all rows s ]

  -- runArchiveGCOnce
  unfoldable pub run_archive_gc_once : ArchiveGcConfig → Action e Error ArchiveGcStats
  run_archive_gc_once cfg = do
    now ← time_now
    candidates ← attempt {F = Error} (list_evictable_archive_files (now - cfg.ttl) cfg.batch_limit)
    elim candidates [
      | none ↦ pure (count_error no_stats)
      | some files ↦ do s ← evict_all cfg files no_stats; sweep_evicted_objects s
    ]
