-- ===== src/Database/Builds/Found.antt =====
-- What `GetBuildByID` finds, and that it changes nothing.
use den_kit_stash.Base.{ℕ, ◌≡◌, number_eq, some, eq_of_true, find-passes}
use den_kit_stash.Model.{Build}
use den_kit_stash.World.{Env, World, ok}
use den_kit_stash.World.Tables.{Db}
use den_kit_stash.World.Keeps.{Keeps}
use den_kit_stash.World.Laws.{query_row-ok, query_row-world}
use den_kit_stash.World.Reads.{Untouched, Untouched-query_row}
use den_kit_stash.Database.Builds.{get_build_by_id, find_build}

-- A build that is found has the id that was asked for.
pub get_build_by_id-ok :
    {e : Env} (id : ℕ) (w : World e) (b : Build)
    → (get_build_by_id id w).0 ≡ ok b
    → (find_build w.db id ≡ some b) × (b.id ≡ id)
unfolding get_build_by_id
get_build_by_id-ok id w b h =
    let found = query_row-ok (λ db. find_build db id) w b h in
    (found, eq_of_true b.id id (find-passes _ w.db.builds.rows b found))

pub get_build_by_id-db : {e : Env} (id : ℕ) (w : World e) → (get_build_by_id id w).1.db ≡ w.db
unfolding get_build_by_id
get_build_by_id-db id w = rw query_row-world

module _ {e : Env} {db : Db} {objects : e.Objects} where
  pub Untouched-get_build : (id : ℕ) → Keeps (Untouched {e = e} db objects) (get_build_by_id id)
  unfolding get_build_by_id
  Untouched-get_build id = Untouched-query_row _
