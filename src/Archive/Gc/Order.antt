-- ===== src/Archive/Gc/Order.antt =====
-- The order of an eviction's steps.
use den_kit_stash.Base.{
  ℕ, ◌≡◌, refl, ◌⊎◌, inl, inr, Bool, true, false, not, ◌||◌, ◌==◌, number_eq, some, List, [], ◌∷◌,
  All, Bool-cases, arith,
}
use den_kit_stash.Model.{BuildFile, evicted, is_evicted}
use den_kit_stash.World.{Env, World, Action, Error, ok, ◌>>◌, ◌or_fail◌, call, pure}
use den_kit_stash.World.Tables.{Db, modify, modify_rows}
use den_kit_stash.Database.Builds.{has_build}
use den_kit_stash.World.Keeps.{Keeps, Keeps-pure, Keeps-bind, Keeps-or_fail}
use den_kit_stash.World.Laws.{exec-world, exec-ok, Result-cases}
use den_kit_stash.Database.Files.{update_build_file}
use den_kit_stash.Archive.Files.{delete_object}
use den_kit_stash.Archive.Gc.{ArchiveGcStats, mark_and_delete, count_evicted, count_error}

-- Every row of the id is evicted.
abbrev pub IsMarked : {e : Env} → ℕ → World e → Type 0
IsMarked id w = All (λ r. (not (r.id == id) || is_evicted r.state) ≡ true) w.db.build_files.rows

modified-IsMarked :
    (id : ℕ) (f : BuildFile → BuildFile) (rows : List BuildFile)
    → ((r : BuildFile) → is_evicted (f r).state ≡ true)
    → All
        (λ r. (not (r.id == id) || is_evicted r.state) ≡ true)
        (modify_rows (λ r. r.id == id) f rows)
modified-IsMarked id f [] h = tt
modified-IsMarked id f (r ∷ rs) h = elim (Bool-cases (r.id == id)) [
  | inl same ↦ (rw same (or_true (not ((f r).id == id)) _ (h r)), modified-IsMarked id f rs h)
  | inr other ↦ (rw (other, other) refl, modified-IsMarked id f rs h)
]
  where
    or_true : (a b : Bool) → b ≡ true → (a || b) ≡ true
    or_true true b eq = refl
    or_true false b eq = eq

-- The row and the tables that UpdateBuildFile writes.
abbrev updated_row : BuildFile → ℕ → BuildFile → BuildFile
updated_row f now r = record f {
  id = r.id;
  last_accessed_at = r.last_accessed_at;
  created_at = r.created_at;
  updated_at = now;
}

abbrev updated_db : BuildFile → ℕ → Db → Unit {0} × Db
updated_db f now db =
    (tt, record db { build_files = modify (λ r. r.id == f.id) (updated_row f now) db.build_files })

abbrev has_owner : BuildFile → Db → Bool
has_owner f db = has_build db f.build_id

update-IsMarked :
    {e : Env} (f : BuildFile)
    → is_evicted f.state ≡ true
    → Keeps (IsMarked {e = e} f.id) (update_build_file f)
unfolding update_build_file
update-IsMarked f h = record {
  at = λ w m. elim (exec-world (has_owner f) (updated_db f) w) [
    | inl same ↦ rw same m
    | inr (allowed, changed) ↦ rw changed (modified-IsMarked f.id _ w.db.build_files.rows (λ r. h))
  ];
}

update-marks :
    {e : Env} (f : BuildFile) (w : World e) (u : Unit {0})
    → is_evicted f.state ≡ true
    → (update_build_file f w).0 ≡ ok u
    → IsMarked f.id (update_build_file f w).1
unfolding update_build_file
update-marks f w u h ran =
    let (allowed, changed) = exec-ok (has_owner f) (updated_db f) w u ran in
    rw changed (modified-IsMarked f.id _ w.db.build_files.rows (λ r. h))

update-objects :
    {e : Env} (f : BuildFile) (w : World e) → (update_build_file f w).1.objects ≡ w.objects
unfolding update_build_file
update-objects f w = elim (exec-world (has_owner f) (updated_db f) w) [
  | inl same ↦ rw same
  | inr (allowed, changed) ↦ rw changed
]

delete-IsMarked :
    {e : Env} (id : ℕ) (path : List ℕ) → Keeps (IsMarked {e = e} id) (delete_object path)
unfolding delete_object call
delete-IsMarked id path = record { at = λ w m. ground arith }

-- The row that `mark_and_delete` writes first.
abbrev marked : {e : Env} → BuildFile → World e → BuildFile
marked {e} file w = record file { state = evicted; evicted_at = some (e.now w.calls) }

-- What `mark_and_delete` does behind the first write.
abbrev behind : {e : Env} → BuildFile → ArchiveGcStats → Action e ArchiveGcStats ArchiveGcStats
behind f s =
    delete_object f.storage_path or_fail count_error s
    >> (update_build_file (record f { storage_path = [] })
          or_fail count_error (count_evicted f.size s)
        >> pure (count_evicted f.size s))

behind-IsMarked :
    {e : Env} (f : BuildFile) (s : ArchiveGcStats)
    → is_evicted f.state ≡ true
    → Keeps (IsMarked {e = e} f.id) (behind f s)
behind-IsMarked f s h =
    Keeps-bind _ _ (Keeps-or_fail _ _ (delete-IsMarked f.id f.storage_path)) λ _.
      Keeps-bind _ _ (Keeps-or_fail _ _ (update-IsMarked (record f { storage_path = [] }) h))
        λ _. Keeps-pure _

-- Wherever an eviction is broken off, the object store is as it was, or every row of the file's id says
-- evicted: no object goes before its row says so.
pub mark_and_delete-IsMarked :
    {e : Env} (file : BuildFile) (s : ArchiveGcStats) (w : World e)
    → ((mark_and_delete file s w).1.objects ≡ w.objects)
      ⊎ IsMarked file.id (mark_and_delete file s w).1
unfolding mark_and_delete
mark_and_delete-IsMarked {e} file s w =
    let write : Action e Error (Unit {0}) = update_build_file (marked file w) in
    elim (Result-cases (write w).0) [
      | inl (u, eq) ↦ inr (
          rw eq (
            (behind-IsMarked (marked file w) s refl).at (write w).1
              (update-marks (marked file w) w u refl eq)))
      | inr (x, eq) ↦ inl (rw eq (update-objects (marked file w) w))
    ]
