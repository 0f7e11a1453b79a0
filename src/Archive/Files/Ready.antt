-- ===== src/Archive/Files/Ready.antt =====
-- What `findBuildFile` finds.
use den_kit_stash.Base.{
  ℕ, String, ◌≡◌, ◌∙◌, ap, ◌==◌, number_eq, Option, some, List, find, select, arith,
}
use den_kit_stash.Model.{BuildFile}
use den_kit_stash.World.{Env, World, ok}
use den_kit_stash.World.Tables.{Db}
use den_kit_stash.World.Keeps.{Keeps, keeps_rules}
use den_kit_stash.World.Laws.{query-ok, query-world, bind-ok, from_option-ok}
use den_kit_stash.World.Reads.{Untouched, Untouched-query, Untouched-call}
use den_kit_stash.Database.Files.{get_build_files_by_build_id}
use den_kit_stash.Archive.Files.{find_build_file, is_ready, head_object}

-- The file of the build that is ready.
abbrev pub ready_file : Db → ℕ → String → Option BuildFile
ready_file db build_id file_type =
    find (is_ready file_type "default") (select (λ f. f.build_id == build_id) db.build_files.rows)

pub find_build_file-ok :
    {e : Env} (id : ℕ) (file_type : String) (w : World e) (f : BuildFile)
    → (find_build_file id file_type "default" w).0 ≡ ok f
    → ready_file w.db id file_type ≡ some f
unfolding find_build_file get_build_files_by_build_id
find_build_file-ok id file_type w f h =
    let (files, listed, picked) = bind-ok (get_build_files_by_build_id id) _ w f h in
    let same = query-ok (λ db. select (λ f. f.build_id == id) db.build_files.rows) w files listed in
    let chosen = from_option-ok _ _ f picked in
    ap (find (is_ready file_type "default")) same ∙ chosen

pub find_build_file-db :
    {e : Env} (id : ℕ) (file_type sub_type : String) (w : World e)
    → (find_build_file id file_type sub_type w).1.db ≡ w.db
unfolding find_build_file get_build_files_by_build_id
find_build_file-db id file_type sub_type w =
    ground (arith, query-world (λ db. select (λ f. f.build_id == id) db.build_files.rows) w)

module _ {e : Env} {db : Db} {objects : e.Objects} where
  pub Untouched-files :
      (id : ℕ) → Keeps (Untouched {e = e} db objects) (get_build_files_by_build_id id)
  unfolding get_build_files_by_build_id
  Untouched-files id = Untouched-query _

  pub Untouched-find_build_file :
      (id : ℕ) (file_type sub_type : String)
      → Keeps (Untouched {e = e} db objects) (find_build_file id file_type sub_type)
  unfolding find_build_file
  Untouched-find_build_file id file_type sub_type = search (keeps_rules, Untouched-files)

  pub Untouched-head_object : (p : List ℕ) → Keeps (Untouched {e = e} db objects) (head_object p)
  unfolding head_object
  Untouched-head_object p = Untouched-call _
