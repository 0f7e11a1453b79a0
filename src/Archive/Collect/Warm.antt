-- ===== src/Archive/Collect/Warm.antt =====
-- When `collectRebuildChain` takes a parent's archive to be warm.
use den_kit_stash.Base.{
  ℕ, String, ◌≡◌, refl, ap, ◌∙◌, subst, Text, true, false, ◌==◌, number_eq, Option, none, some,
  find, select, arith, Option-cases, inl, inr,
}
use den_kit_stash.Archive.Files.Ready.{Untouched-files}
use den_kit_stash.Model.{BuildFile}
use den_kit_stash.World.{Env, World, Action, Error, ok, attempt, call}
use den_kit_stash.World.Tables.{Db}
use den_kit_stash.World.Keeps.{Keeps, keeps_rules, Keeps-pure}
use den_kit_stash.World.Laws.{attempt-some, ok-inj, bind-ok, query-ok}
use den_kit_stash.World.Reads.{Untouched}
use den_kit_stash.Database.Files.{get_build_files_by_build_id}
use den_kit_stash.Archive.Files.{find_build_file_any_state, file_exists, head_object, has_kind}
use den_kit_stash.Archive.Files.Ready.{Untouched-head_object}
use den_kit_stash.Archive.Patch.{warm_path}
use den_kit_stash.Archive.Collect.{path_of, object_of, has_warm_archive}

module _ {e : Env} {db : Db} {objects : e.Objects} where
  Untouched-find_any :
      (id : ℕ) (file_type sub_type : String)
      → Keeps (Untouched {e = e} db objects) (find_build_file_any_state id file_type sub_type)
  unfolding find_build_file_any_state
  Untouched-find_any id file_type sub_type = search (keeps_rules, Untouched-files)

  Untouched-file_exists : (p : Text) → Keeps (Untouched {e = e} db objects) (file_exists p)
  unfolding file_exists
  Untouched-file_exists p = search (keeps_rules, Untouched-head_object)

  Untouched-object_of : (o : Option Text) → Keeps (Untouched {e = e} db objects) (object_of o)
  Untouched-object_of none = Keeps-pure false
  Untouched-object_of (some p) = Untouched-file_exists p

  pub Untouched-has_warm : (id : ℕ) → Keeps (Untouched {e = e} db objects) (has_warm_archive id)
  unfolding has_warm_archive
  Untouched-has_warm id = search (keeps_rules, Untouched-find_any, Untouched-object_of)

-- The archive's row is uploaded under a path, and the store has its object.
abbrev pub IsWarm : (e : Env) → Db → e.Objects → ℕ → Type 0
IsWarm e db objects id =
    (path : Text) × (size : ℕ) × (warm_path
        (find (has_kind "archive" "default") (select (λ f. f.build_id == id) db.build_files.rows))
      ≡ some path)
    × (e.head objects path ≡ some size)

file_exists-ok :
    {e : Env} (p : Text) (w : World e)
    → (file_exists p w).0 ≡ ok true
    → (size : ℕ) × (e.head w.objects p ≡ some size)
unfolding file_exists head_object call
file_exists-ok p w h = ground arith

find_any-ok :
    {e : Env} (id : ℕ) (w : World e) (o : Option BuildFile)
    → (find_build_file_any_state id "archive" "default" w).0 ≡ ok o
    → find (has_kind "archive" "default") (select (λ f. f.build_id == id) w.db.build_files.rows) ≡ o
unfolding find_build_file_any_state get_build_files_by_build_id
find_any-ok id w o h =
    let (files, listed, picked) = bind-ok (get_build_files_by_build_id id) _ w o h in
    let same = query-ok (λ db. select (λ f. f.build_id == id) db.build_files.rows) w files listed in
    ap (find (has_kind "archive" "default")) same ∙ ok-inj picked

-- What `object_of` answers with true.
Stored : (e : Env) → e.Objects → Option (Option BuildFile) → Type 0
Stored e objects found =
    (o : Option BuildFile) × (found ≡ some o)
    × (path : Text) × (size : ℕ) × (warm_path o ≡ some path)
    × (e.head objects path ≡ some size)

object_of-Stored :
    {e : Env} (found : Option (Option BuildFile)) (w : World e)
    → (object_of (path_of found) w).0 ≡ ok true
    → Stored e w.objects found
unfolding Stored
object_of-Stored none w h = absurd (let bad = ok-inj h in cc bad)
object_of-Stored (some o) w h = elim (Option-cases (warm_path o)) [
  | inl eq ↦ absurd (let bad = rw (eq, object_of) at h in cc bad)
  | inr (path, eq) ↦
      let (size, there) = file_exists-ok path w (rw (eq, object_of) at h) in
      (o, refl, path, size, eq, there)
]

pub has_warm_archive-IsWarm :
    {e : Env} (id : ℕ) (db : Db) (objects : e.Objects) (w : World e)
    → Untouched db objects w
    → (has_warm_archive id w).0 ≡ ok true
    → IsWarm e db objects id
unfolding has_warm_archive Stored
has_warm_archive-IsWarm {e} id db objects w u h =
    let look : Action e Error (Option BuildFile) =
      find_build_file_any_state id "archive" "default" in
    let (found, looked, h1) =
      bind-ok (attempt {F = Error} look) (λ f. object_of {e = e} (path_of f)) w true h in
    let w1 : World e = (look w).1 in
    let (o, eq, path, size, warm, there) = object_of-Stored found w1 h1 in
    let row = find_any-ok id w o (attempt-some {F = Error} look w o (rw eq at looked)) in
    let kept = (Untouched-find_any id "archive" "default").at w u in
    (
      path,
      size,
      subst
          (λ d.
            warm_path (
              find (has_kind "archive" "default")
                (select (λ f. f.build_id == id) d.build_files.rows))
            ≡ some path)
          u.tables (ap warm_path row ∙ warm),
      subst (λ s. e.head s path ≡ some size) kept.stored there,
    )
