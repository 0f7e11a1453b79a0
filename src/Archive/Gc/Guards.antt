-- ===== src/Archive/Gc/Guards.antt =====
-- What the checks of `evictArchive` read, and that they change nothing.
use den_kit_stash.Base.{
  not-true, ℕ, String, ◌≡◌, refl, subst, Bool, true, false, number_eq, some, is_blank,
}
use den_kit_stash.Database.Builds.Found.{Untouched-get_build}
use den_kit_stash.Model.{BuildFile}
use den_kit_stash.World.{Env, World, ok, ◌>>=◌, ◌or_fail◌}
use den_kit_stash.World.Tables.{Db}
use den_kit_stash.World.Keeps.{Keeps, keeps_rules, Keeps-pure, Keeps-raise}
use den_kit_stash.World.Laws.{bind-ok, or_fail-ok}
use den_kit_stash.World.Reads.{Untouched, Untouched-query, Untouched-query_row, Untouched-call}
use den_kit_stash.Database.Files.{get_build_file_by_id, is_channel_head}
use den_kit_stash.Archive.Files.{find_build_file}
use den_kit_stash.Archive.Files.Ready.{
  ready_file, find_build_file-ok, Untouched-find_build_file, Untouched-head_object,
}
use den_kit_stash.Archive.Rebuild.{try_acquire_build_archive_lock, release_lock}
use den_kit_stash.Archive.Gc.{
  ArchiveGcConfig, ArchiveGcStats, Eviction, keep_going, skip_guard, require_stored, reverify,
}

-- The file that the archive is made again from is uploaded and has a path.
abbrev pub IsStored : Db → ℕ → String → Type 0
IsStored db build_id kind =
    (f : BuildFile) × (ready_file db build_id kind ≡ some f) × (is_blank f.storage_path ≡ false)

pub keep_going-ok :
    {e : Env} {A : Type 0} (t : Bool) (s : ArchiveGcStats) (f : Unit {0} → Eviction e A)
    (w : World e) (a : A)
    → ((keep_going t s >>= f) w).0 ≡ ok a
    → (t ≡ true) × ((f tt w).0 ≡ ok a)
keep_going-ok true s f w a h = (refl, h)
keep_going-ok false s f w a h = absurd (cc h)

module _ {e : Env} {db : Db} {objects : e.Objects} where
  Untouched-keep_going :
      (t : Bool) (s : ArchiveGcStats) → Keeps (Untouched {e = e} db objects) (keep_going t s)
  Untouched-keep_going true s = Keeps-pure tt
  Untouched-keep_going false s = Keeps-raise s

  Untouched-require_stored :
      (id : ℕ) (required : String) (s : ArchiveGcStats)
      → Keeps (Untouched {e = e} db objects) (require_stored id required s)
  unfolding require_stored
  Untouched-require_stored id required s =
      search (keeps_rules, Untouched-find_build_file, Untouched-head_object, Untouched-keep_going)

  pub Untouched-file : (id : ℕ) → Keeps (Untouched {e = e} db objects) (get_build_file_by_id id)
  unfolding get_build_file_by_id
  Untouched-file id = Untouched-query_row _

  pub Untouched-head : (id : ℕ) → Keeps (Untouched {e = e} db objects) (is_channel_head id)
  unfolding is_channel_head
  Untouched-head id = Untouched-query _

  pub Untouched-reverify :
      (cfg : ArchiveGcConfig) (f : BuildFile) (s : ArchiveGcStats)
      → Keeps (Untouched {e = e} db objects) (reverify cfg f s)
  unfolding reverify
  Untouched-reverify cfg f s =
      search
        (
          keeps_rules, Untouched-file, Untouched-head, Untouched-get_build,
          Untouched-require_stored, Untouched-keep_going,
        )
        depth 14

  pub Untouched-try_acquire :
      (id : ℕ) → Keeps (Untouched {e = e} db objects) (try_acquire_build_archive_lock id)
  unfolding try_acquire_build_archive_lock
  Untouched-try_acquire id = Untouched-call _

  pub Untouched-release : Keeps (Untouched {e = e} db objects) release_lock
  unfolding release_lock
  Untouched-release = Untouched-call _

pub require_stored-ok :
    {e : Env} {A : Type 0} (id : ℕ) (required : String) (s : ArchiveGcStats)
    (f : Unit {0} → Eviction e A) (db : Db) (w : World e) (a : A)
    → w.db ≡ db
    → ((require_stored id required s >>= f) w).0 ≡ ok a
    → IsStored db id required × ((w' : World e) × (w'.db ≡ db) × ((f tt w').0 ≡ ok a))
unfolding require_stored
require_stored-ok {e} id required s f db w a same h =
    let (u, stored, h1) = bind-ok (require_stored id required s) f w a h in
    let (file, got, h2) =
      bind-ok (find_build_file id required "default" or_fail skip_guard s) _ w u stored in
    let ready =
      find_build_file-ok id required w file
        (or_fail-ok (find_build_file id required "default") (skip_guard s) w file got) in
    let (t, h3) =
      keep_going-ok _ (skip_guard s) _ (find_build_file id required "default" w).1 u h2 in
    let kept =
      (Untouched-require_stored id required s).at w (record { tables = same; stored = refl }) in
    (
      (file, subst (λ d. ready_file d id required ≡ some file) same ready, not-true _ t),
      ((require_stored id required s w).1, kept.tables, h1),
    )
