-- ===== src/Archive/Gc/Evicted.antt =====
-- What an eviction may leave of the tables and the object store.
use den_kit_stash.Base.{
  ℕ, ◌≡◌, refl, ◌⊎◌, inl, inr, true, not, ◌==◌, number_eq, eq_of_true, List, [], ◌∷◌, Bool-cases,
  select, All, IsRow,
}
use den_kit_stash.Model.{BuildFile, is_evicted}
use den_kit_stash.World.{Env, World}
use den_kit_stash.World.Tables.{Db, modify_rows}

-- The row says that the file is evicted, and is otherwise the file's.
pub record IsEvictionOf (f r : BuildFile) : Type 0 where
  pub same_id : r.id ≡ f.id
  pub same_build : r.build_id ≡ f.build_id
  pub same_type : r.type ≡ f.type
  pub same_sub_type : r.sub_type ≡ f.sub_type
  pub same_size : r.size ≡ f.size
  pub marked : is_evicted r.state ≡ true
  pub path : (r.storage_path ≡ f.storage_path) ⊎ (r.storage_path ≡ [])

-- Only rows of the file's id are written, and only as evictions of it.
pub record OnlyEvicted {e : Env} (f : BuildFile) (db : Db) (w : World e) : Type 0 where
  pub tables : w.db ≡ record db { build_files = w.db.build_files }
  pub others :
      select (λ r. not (r.id == f.id)) w.db.build_files.rows
      ≡ select (λ r. not (r.id == f.id)) db.build_files.rows
  pub rows : All (λ r. IsRow r db.build_files.rows ⊎ IsEvictionOf f r) w.db.build_files.rows

-- What an eviction of the file may leave: its row perhaps marked, and its object there or deleted.
pub record Evicts {e : Env} (f : BuildFile) (before w : World e) : Type 0 where
  pub written : OnlyEvicted f before.db w
  pub objects : (w.objects ≡ before.objects) ⊎ (w.objects ≡ e.delete before.objects f.storage_path)

pub others-modify :
    (id : ℕ) (g : BuildFile → BuildFile) (rows : List BuildFile)
    → ((r : BuildFile) → (g r).id ≡ r.id)
    → select (λ r. not (r.id == id)) (modify_rows (λ r. r.id == id) g rows)
      ≡ select (λ r. not (r.id == id)) rows
others-modify id g [] h = refl
others-modify id g (r ∷ rs) h = elim (Bool-cases (r.id == id)) [
  | inl same ↦ rw (same, h r, same) (others-modify id g rs h)
  | inr other ↦ rw (other, other, others-modify id g rs h)
]

pub rows-modify :
    (f : BuildFile) (g : BuildFile → BuildFile) (old rows : List BuildFile)
    → ((r : BuildFile) → r.id ≡ f.id → IsEvictionOf f (g r))
    → All (λ r. IsRow r old ⊎ IsEvictionOf f r) rows
    → All (λ r. IsRow r old ⊎ IsEvictionOf f r) (modify_rows (λ r. r.id == f.id) g rows)
rows-modify f g old [] h k = tt
rows-modify f g old (r ∷ rs) h (here, k) = elim (Bool-cases (r.id == f.id)) [
  | inl same ↦ (rw same (inr (h r (eq_of_true r.id f.id same))), rows-modify f g old rs h k)
  | inr other ↦ (rw other here, rows-modify f g old rs h k)
]

pub all_rows :
    (rows more : List BuildFile) (f : BuildFile)
    → ((r : BuildFile) → IsRow r rows → IsRow r more)
    → All (λ r. IsRow r more ⊎ IsEvictionOf f r) rows
all_rows [] more f h = tt
all_rows (r ∷ rs) more f h = (inl (h r (inl refl)), all_rows rs more f (λ s k. h s (inr k)))
