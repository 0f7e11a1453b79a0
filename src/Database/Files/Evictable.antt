-- ===== src/Database/Files/Evictable.antt =====
-- The archives that a sweep takes up.
use mathlib.Core.List.{Perm}
use den_kit_stash.Base.{
  ℕ, ◌≤◌, ◌≡◌, subst, ◌⊎◌, List, [], ◌++◌, All, select, take, length, leb, true, length-take_le,
  arith,
}
use den_kit_stash.Model.{BuildFile}
use den_kit_stash.World.{Env, World, ok}
use den_kit_stash.World.Tables.{order_by}
use den_kit_stash.World.Laws.{query-ok}
use den_kit_stash.World.Order.{
  IsOrdered, drop, take-drop, take-full, take-All, select-All, order_by-Perm, order_by-All,
  order_by-IsOrdered,
}
use den_kit_stash.Database.Files.{evictable, list_evictable_archive_files}

-- The files that `ListEvictableArchiveFiles` gives are evictable, and are the first of all the
-- evictable files in an order by the time of the last access, the oldest first; as many are given as
-- the limit allows, or all of them.
pub list_evictable_archive_files-oldest :
    {e : Env} (before limit : ℕ) (w : World e) (files : List BuildFile)
    → (list_evictable_archive_files before limit w).0 ≡ ok files
    → All (λ f. evictable w.db before f ≡ true) files
      × (rest : List BuildFile) × Perm
          (files ++ rest)
          (select (evictable w.db before) w.db.build_files.rows)
      × IsOrdered (λ f g. f.last_accessed_at ≤ g.last_accessed_at) (files ++ rest)
      × (length files ≤ limit)
      × ((length files ≡ limit) ⊎ (rest ≡ []))
unfolding list_evictable_archive_files
list_evictable_archive_files-oldest before limit w files h =
    let chosen : List BuildFile = select (evictable w.db before) w.db.build_files.rows in
    let sorted : List BuildFile =
      order_by (λ f g. leb f.last_accessed_at g.last_accessed_at) chosen in
    let given : take limit sorted ≡ files = query-ok _ w files h in
    subst
      (λ fs.
        All (λ f. evictable w.db before f ≡ true) fs
        × (rest : List BuildFile) × Perm (fs ++ rest) chosen
        × IsOrdered (λ f g. f.last_accessed_at ≤ g.last_accessed_at) (fs ++ rest)
        × (length fs ≤ limit)
        × ((length fs ≡ limit) ⊎ (rest ≡ [])))
      given
      (
        take-All _ limit sorted (
            order_by-All _ (λ f. evictable w.db before f ≡ true) chosen
              (select-All (evictable w.db before) w.db.build_files.rows)),
        drop limit sorted,
        rw take-drop (order_by-Perm _ chosen),
        rw take-drop (
            order_by-IsOrdered (λ f g. leb f.last_accessed_at g.last_accessed_at)
              (λ f g. f.last_accessed_at ≤ g.last_accessed_at) (λ f g k. ground arith)
              (λ f g k. ground arith) (λ f g i k l. omega arith) chosen),
        length-take_le limit sorted,
        take-full limit sorted,
      )
