-- ===== src/Archive/Gc/Safety.antt =====
-- What `evictArchive` never evicts.
use den_kit_stash.Base.{
  not-true, arith, ℕ, suc, ap, find, Option, ◌==◌, ◌≡◌, refl, ◌∙◌, subst, Bool, true, false,
  number_eq, some, ◌⊎◌, inl, inr, and_true,
}
use den_kit_stash.Model.{BuildFile, Build, is_completed, is_uploaded}
use den_kit_stash.World.{Env, World, Action, Error, ok, query_row, call, ◌or_fail◌}
use den_kit_stash.World.Tables.{Db}
use den_kit_stash.World.Laws.{
  ok-inj, Result-cases, bind-ok, or_fail-ok, query_row-ok, query_row-world, ticked,
}
use den_kit_stash.World.Reads.{query_row-Found, query-Found, Untouched}
use den_kit_stash.Database.Builds.{get_build_by_id, find_build}
use den_kit_stash.Database.Files.{get_build_file_by_id, is_channel_head, channel_head}
use den_kit_stash.Archive.Rebuild.{try_acquire_build_archive_lock}
use den_kit_stash.Archive.Gc.{
  ArchiveGcConfig, ArchiveGcStats, is_recent, skip_guard, count_error, reverify, evict_archive,
  locked_eviction,
}
use den_kit_stash.Archive.Gc.Evicted.{Evicts}
use den_kit_stash.Archive.Gc.Effect.{locked-Evicts}
use den_kit_stash.Archive.Gc.Guards.{
  IsStored, keep_going-ok, require_stored-ok, Untouched-reverify, Untouched-try_acquire,
  Untouched-release,
}

-- What an archive needs to be evicted: it is the row of this id, at this moment it was not recently
-- asked for, it is uploaded, its build is completed and no channel's head, and the build's patch and
-- signature are stored.
pub record Evictable (e : Env) (cfg : ArchiveGcConfig) (db : Db) (id moment : ℕ) (f : BuildFile)
    : Type 0 where
  pub row : find (λ r. r.id == id) db.build_files.rows ≡ some f
  pub old : is_recent (e.now moment) cfg.ttl f.last_accessed_at ≡ false
  pub uploaded : is_uploaded f.state ≡ true
  pub not_head : channel_head db f.build_id ≡ false
  pub build : Build
  pub found : find_build db f.build_id ≡ some build
  pub completed : is_completed build.state ≡ true
  pub patch : IsStored db f.build_id "patch"
  pub signature : IsStored db f.build_id "signature"

reverify-ok :
    {e : Env} (cfg : ArchiveGcConfig) (candidate file : BuildFile) (s : ArchiveGcStats)
    (w : World e)
    → (reverify cfg candidate s w).0 ≡ ok file
    → Evictable e cfg w.db candidate.id (suc w.calls) file
unfolding reverify get_build_file_by_id is_channel_head get_build_by_id
reverify-ok {e} cfg candidate file s w h =
    let q : Db → Option BuildFile = λ db. find (λ r. r.id == candidate.id) db.build_files.rows in
    let (f, got, h1) = bind-ok (query_row q or_fail count_error s) _ w file h in
    let here : (query_row q w).1 ≡ ticked w = query_row-world q w in
    let w1 : World e = (query_row q w).1 in
    let d1 : w1.db ≡ w.db = ap (λ v. v.db) here in
    let (t1, h2) = keep_going-ok _ (skip_guard s) _ w1 file h1 in
    let (t2, h3) = keep_going-ok _ (skip_guard s) _ w1 file h2 in
    let (head, is_head, w2, d2, h4) = query-Found _ (skip_guard s) _ w.db w1 file d1 h3 in
    let (t3, h5) = keep_going-ok _ (skip_guard s) _ w2 file h4 in
    let (build, row, w3, d3, h6) = query_row-Found _ (skip_guard s) _ w.db w2 file d2 h5 in
    let (t4, h7) = keep_going-ok _ (skip_guard s) _ w3 file h6 in
    let (patch, (w4, d4, h8)) = require_stored-ok f.build_id "patch" s _ w.db w3 file d3 h7 in
    let (signature, (w5, d5, h9)) =
      require_stored-ok f.build_id "signature" s _ w.db w4 file d4 h8 in
    let same : f ≡ file = ok-inj h9 in
    subst (Evictable e cfg w.db candidate.id (suc w.calls)) same (record {
      row = query_row-ok q w f (or_fail-ok (query_row q) (count_error s) w f got);
      old =
          subst (λ n. is_recent (e.now n) cfg.ttl f.last_accessed_at ≡ false)
            (ap (λ v. v.calls) here) (not-true _ t2);
      uploaded = (and_true (is_uploaded f.state) _ t1).0;
      not_head = is_head ∙ not-true head t3;
      build = build;
      found = row;
      completed = t4;
      patch = patch;
      signature = signature;
    })

-- An eviction of the candidate's row, which needs what `Evictable` says.
abbrev pub IsEviction : {e : Env} → ArchiveGcConfig → BuildFile → World e → World e → Type 0
IsEviction {e} cfg candidate w after =
    (file : BuildFile) × Evictable e cfg w.db candidate.id (suc (suc w.calls)) file
    × Evicts file w after

locked_eviction-safe :
    {e : Env} (cfg : ArchiveGcConfig) (candidate : BuildFile) (s : ArchiveGcStats) (w w1 : World e)
    (acquired : Bool)
    → Untouched w.db w.objects w1
    → w1.calls ≡ suc w.calls
    → Untouched w.db w.objects (locked_eviction cfg candidate s acquired w1).1
      ⊎ IsEviction cfg candidate w (locked_eviction cfg candidate s acquired w1).1
locked_eviction-safe cfg candidate s w w1 false u one = inl u
locked_eviction-safe {e} cfg candidate s w w1 true u one =
    let kept = (Untouched-reverify cfg candidate s).at w1 u in
    elim (Result-cases (reverify cfg candidate s w1).0) [
      | inl (file, eq) ↦ inr (
        file,
        subst (λ n. Evictable e cfg w.db candidate.id (suc n) file) one
            (subst (λ d. Evictable e cfg d candidate.id (suc w1.calls) file) u.tables
              (reverify-ok cfg candidate file s w1 eq)),
        rw eq (locked-Evicts file w s (reverify cfg candidate s w1).1 kept.tables kept.stored),
      )
      | inr (x, eq) ↦ inl (rw eq (Untouched-release.at _ kept))
    ]

acquire-calls :
    {e : Env} (id : ℕ) (w : World e) → (try_acquire_build_archive_lock id w).1.calls ≡ suc w.calls
unfolding try_acquire_build_archive_lock call
acquire-calls id w = ground arith

-- An eviction leaves every table and the object store alone, unless the row of the candidate's id
-- was uploaded, was not asked for within the time to live before the look at the clock that follows
-- the lock, and is of a completed build that is no channel's head and whose patch and signature are
-- uploaded under a path. Then it writes no other table and no row of another file, its row is left or
-- says that this archive of this build is evicted, and at most the object under its path is deleted.
pub evict_archive_safe :
    {e : Env} (cfg : ArchiveGcConfig) (candidate : BuildFile) (s : ArchiveGcStats) (w : World e)
    → Untouched w.db w.objects (evict_archive cfg candidate s w).1
      ⊎ IsEviction cfg candidate w (evict_archive cfg candidate s w).1
unfolding evict_archive
evict_archive_safe {e} cfg candidate s w =
    let acquire : Action e Error Bool = try_acquire_build_archive_lock candidate.build_id in
    let kept : Untouched w.db w.objects (acquire w).1 =
      (Untouched-try_acquire candidate.build_id).at w (record { tables = refl; stored = refl }) in
    elim (Result-cases (acquire w).0) [
      | inl (acquired, eq) ↦ rw eq (
          locked_eviction-safe cfg candidate s w (acquire w).1 acquired kept
            (acquire-calls candidate.build_id w))
      | inr (x, eq) ↦ inl (rw eq kept)
    ]
