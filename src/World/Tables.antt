-- ===== src/World/Tables.antt =====
-- The tables of models/postgres.go. A table keeps its rows in the order of insertion, which is the
-- order of a query with no ORDER BY, and the next value of its SERIAL id.
use den_kit_stash.Base.{ℕ, suc, Bool, List, [], ◌∷◌, ◌++◌, if◌then◌else◌}
use den_kit_stash.Model.{User, Game, Upload, Build, BuildFile, Channel, UploadSession}

pub record Table (R : Type 0) : Type 0 where
  pub next_id : ℕ
  pub rows : List R

module _ {R : Type 0} where
  abbrev pub empty : Table R
  empty = record { next_id = 1; rows = [] }

  -- INSERT ... RETURNING id: the row is made from its id.
  abbrev pub insert : (ℕ → R) → Table R → Table R
  insert row t = record { next_id = suc t.next_id; rows = t.rows ++ row t.next_id ∷ [] }

  abbrev pub modify_rows : (R → Bool) → (R → R) → List R → List R
  modify_rows p f [] = []
  modify_rows p f (r ∷ rs) = (if p r then f r else r) ∷ modify_rows p f rs

  -- UPDATE ... SET f WHERE p
  abbrev pub modify : (R → Bool) → (R → R) → Table R → Table R
  modify p f t = record t { rows = modify_rows p f t.rows }

  -- ORDER BY: a stable insertion sort.
  abbrev pub insert_sorted : (R → R → Bool) → R → List R → List R
  insert_sorted before r [] = r ∷ []
  insert_sorted before r (x ∷ xs) =
      let rest = insert_sorted before r xs in if before r x then r ∷ x ∷ xs else x ∷ rest

  abbrev pub order_by : (R → R → Bool) → List R → List R
  order_by before [] = []
  order_by before (r ∷ rs) = insert_sorted before r (order_by before rs)

pub record Db : Type 0 where
  pub users : Table User
  pub games : Table Game
  pub uploads : Table Upload
  pub builds : Table Build
  pub build_files : Table BuildFile
  pub channels : Table Channel
  pub upload_sessions : Table UploadSession

-- The tables that `migrate` creates.
abbrev pub empty_db : Db
empty_db = record {
  users = empty;
  games = empty;
  uploads = empty;
  builds = empty;
  build_files = empty;
  channels = empty;
  upload_sessions = empty;
}
