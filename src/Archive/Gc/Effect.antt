-- ===== src/Archive/Gc/Effect.antt =====
-- What the steps of an eviction leave of the tables and the object store.
use den_kit_stash.Base.{
  ℕ, ◌≡◌, refl, ap, ◌∙◌, suc, Option, ◌⊎◌, inl, inr, ◌==◌, number_eq, some, [], Text, arith,
}
use den_kit_stash.Model.{BuildFile, evicted}
use den_kit_stash.World.{
  Env, World, Action, Result, ok, err, pure, call, ◌then_always◌, ◌>>◌, ◌or_fail◌,
}
use den_kit_stash.World.Tables.{Db, modify}
use den_kit_stash.World.Keeps.{Keeps}
use den_kit_stash.World.Laws.{exec-world, ticked}
use den_kit_stash.World.Outcomes.{
  Leaves, Leaves-bind, Leaves-or_fail, Leaves-call, Leaves-weaken, Post,
}
use den_kit_stash.Database.Builds.{has_build}
use den_kit_stash.Database.Files.{update_build_file}
use den_kit_stash.Archive.Files.{delete_object}
use den_kit_stash.Archive.Rebuild.{release_lock}
use den_kit_stash.Archive.Gc.{ArchiveGcStats, mark_and_delete, count_evicted, count_error}
use den_kit_stash.Archive.Gc.Evicted.{
  IsEvictionOf, OnlyEvicted, Evicts, others-modify, rows-modify, all_rows,
}

Keeps-Leaves :
    {e : Env} {E A : Type 0} {P : World e → Type 0} (m : Action e E A)
    → Keeps P m
    → Leaves P m (λ a w. P w) (λ x w. P w)
Keeps-Leaves {e} {E} {A} {P} m k = record { at = λ w p. go (m w).0 (m w).1 (k.at w p) }
  where
    go : (r : Result E A) (w : World e) → P w → Post (λ a w. P w) (λ x w. P w) r w
    go (ok a) w h = h
    go (err x) w h = h

-- The file as an evicted row.
abbrev mark : BuildFile → Option ℕ → Text → BuildFile
mark f at path = record f { state = evicted; evicted_at = at; storage_path = path }

-- The row and the tables that UpdateBuildFile writes.
abbrev row_of : BuildFile → ℕ → BuildFile → BuildFile
row_of g now r = record g {
  id = r.id;
  last_accessed_at = r.last_accessed_at;
  created_at = r.created_at;
  updated_at = now;
}

abbrev db_of : BuildFile → ℕ → Db → Unit {0} × Db
db_of g now db =
    (tt, record db { build_files = modify (λ r. r.id == g.id) (row_of g now) db.build_files })

row_of-IsEvictionOf :
    (f : BuildFile) (at : Option ℕ) (path : Text) (now : ℕ) (r : BuildFile)
    → (path ≡ f.storage_path) ⊎ (path ≡ [])
    → r.id ≡ f.id
    → IsEvictionOf f (row_of (mark f at path) now r)
row_of-IsEvictionOf f at path now r h same = record {
  same_id = same;
  same_build = refl;
  same_type = refl;
  same_sub_type = refl;
  same_size = refl;
  marked = refl;
  path = h;
}

module _ {e : Env} (f : BuildFile) (before : World e) where
  -- The object is there, or it is there or deleted.
  abbrev pub Stage : (e.Objects → Type 0) → World e → Type 0
  Stage P w = OnlyEvicted f before.db w × P w.objects

  abbrev pub Kept : e.Objects → Type 0
  Kept o = o ≡ before.objects

  abbrev pub Settled : e.Objects → Type 0
  Settled o = (o ≡ before.objects) ⊎ (o ≡ e.delete before.objects f.storage_path)

  update-Stage :
      (P : e.Objects → Type 0) (at : Option ℕ) (path : Text)
      → (path ≡ f.storage_path) ⊎ (path ≡ [])
      → Keeps (Stage P) (update_build_file (mark f at path))
  unfolding update_build_file
  update-Stage P at path h = record {
    at = λ w (o, k). elim (exec-world (λ db. has_build db f.build_id) (db_of (mark f at path)) w) [
      | inl same ↦ rw same (record { tables = o.tables; others = o.others; rows = o.rows }, k)
      | inr (allowed, changed) ↦ rw changed (
        record {
          tables =
              let set : Db → Db = λ d. record d {
                build_files = (db_of (mark f at path) (e.now (suc w.calls)) w.db).1.build_files;
              } in
              ap set o.tables;
          others = others-modify f.id _ w.db.build_files.rows (λ r. refl) ∙ o.others;
          rows =
              rows-modify f _ before.db.build_files.rows w.db.build_files.rows
                (λ r. row_of-IsEvictionOf f at path (e.now (suc w.calls)) r h) o.rows;
        },
        k,
      )
    ];
  }

  delete-Stage :
      Leaves
        (Stage Kept)
        (delete_object f.storage_path)
        (λ u w. Stage Settled w)
        (λ x w. Stage Settled w)
  unfolding delete_object
  delete-Stage =
      Leaves-call (λ w (o, k). (record { tables = o.tables; others = o.others; rows = o.rows }, k))
        _
        (λ w (o, k). (
          record { tables = o.tables; others = o.others; rows = o.rows },
          inr (ap (λ s. e.delete s f.storage_path) k),
        ))
        (λ w (o, k). (o, inl k))
        (λ w (o, k). (
          record { tables = o.tables; others = o.others; rows = o.rows },
          inr (ap (λ s. e.delete s f.storage_path) k),
        ))

  pub mark_and_delete-Stage :
      (s : ArchiveGcStats)
      → Leaves (Stage Kept) (mark_and_delete f s) (λ a w. Stage Settled w) (λ x w. Stage Settled w)
  unfolding mark_and_delete
  mark_and_delete-Stage s = record { at = λ w p. (behind (some (e.now w.calls))).at w p }
    where
      behind :
          (at : Option ℕ)
          → Leaves
              (Stage Kept)
              (do
                update_build_file (mark f at f.storage_path) or_fail count_error s
                delete_object f.storage_path or_fail count_error s
                update_build_file (mark f at []) or_fail count_error (count_evicted f.size s)
                pure (count_evicted f.size s))
              (λ a w. Stage Settled w)
              (λ x w. Stage Settled w)
      behind at =
          Leaves-bind (λ u w. Stage Kept w) _ _ _
            (Leaves-or_fail _ _ _ (
              Leaves-weaken _ (λ w p. p) (λ a w p. p) (λ x w p. (p.0, inl p.1))
                (Keeps-Leaves _ (update-Stage Kept at f.storage_path (inl refl)))))
            λ _.
              Leaves-bind (λ u w. Stage Settled w) _ _ _ (Leaves-or_fail _ _ _ delete-Stage)
                λ _.
                  Leaves-bind (λ u w. Stage Settled w) _ _ _
                    (Leaves-or_fail _ _ _ (Keeps-Leaves _ (update-Stage Settled at [] (inr refl))))
                    λ _. record { at = λ w p. p }

  released : (w : World e) → (release_lock w).1 ≡ ticked w
  unfolding release_lock call
  released w = ground arith

  -- The lock is released whatever happened.
  release-Stage : Keeps (Stage Settled) release_lock
  release-Stage = record {
    at =
        λ w (o, k). rw released (record { tables = o.tables; others = o.others; rows = o.rows }, k);
  }

  -- An eviction that begins with the tables and the objects of `before`, under the lock.
  pub locked-Evicts :
      (s : ArchiveGcStats) (w : World e)
      → w.db ≡ before.db
      → w.objects ≡ before.objects
      → Evicts f before ((mark_and_delete f s then_always release_lock) w).1
  locked-Evicts s w same there =
      let start : OnlyEvicted f before.db w = record {
        tables = rw same;
        others = rw same;
        rows =
            rw same (all_rows before.db.build_files.rows before.db.build_files.rows f (λ r k. k));
      } in
      let r = mark_and_delete f s w in
      let (written, objects) =
        release-Stage.at r.1 (after r.0 r.1 ((mark_and_delete-Stage s).at w (start, there))) in
      record { written = written; objects = objects }
    where
      after :
          (r : Result ArchiveGcStats ArchiveGcStats) (w : World e)
          → Post (λ a w. Stage Settled w) (λ x w. Stage Settled w) r w
          → Stage Settled w
      after (ok a) w h = h
      after (err x) w h = h
