-- ===== src/Database/Integrity/Builds.antt =====
-- The statements on builds and build files keep the tables valid.
use den_kit_stash.Base.{
  ℕ, ◌≡◌, refl, ap, ◌∙◌, Bool, true, ◌==◌, number_eq, text_eq, codes_eq, Option, none, some, any,
  and_true,
}
use den_kit_stash.Model.{Build, BuildFile}
use den_kit_stash.World.{Env}
use den_kit_stash.World.Tables.{Db, modify, modify_rows}
use den_kit_stash.World.Keeps.{Keeps}
use den_kit_stash.Database.Builds.{
  has_upload, has_build, refers, create_build, update_build, claim_build_processing,
}
use den_kit_stash.Database.Files.{create_build_file, update_build_file, touch_build_file_access}
use den_kit_stash.Database.Integrity.{IsValid}
use den_kit_stash.Database.Integrity.Keeps.{builds-IsValid, build_files-IsValid}
use den_kit_stash.Database.Integrity.Rows.{
  insert-IsAscending, modify-IsAscending, All-append, All-map, All-modify, any-append, any-modify,
}
use den_kit_stash.Database.Integrity.Exec.{Valid, exec-Valid}

refers-grows :
    (has has' : ℕ → Bool)
    → ((id : ℕ) → has id ≡ true → has' id ≡ true)
    → (o : Option ℕ) → refers has o ≡ true
    → refers has' o ≡ true
refers-grows has has' more none h = refl
refers-grows has has' more (some id) h = more id h

-- The builds of an UPDATE that keeps their ids, and what it writes for their references.
updated_builds-IsValid :
    (db : Db) (h : IsValid db) (p : Build → Bool) (f : Build → Build)
    → ((b : Build) → (f b).id ≡ b.id)
    → ((b : Build) → has_upload db b.upload_id ≡ true → has_upload db (f b).upload_id ≡ true)
    → ((b : Build)
        → refers (has_build db) b.parent_build_id ≡ true
        → refers (has_build db) (f b).parent_build_id ≡ true)
    → IsValid (record db { builds = modify p f db.builds })
updated_builds-IsValid db h p f kept uploads parents =
    builds-IsValid db h (modify p f db.builds)
      (modify-IsAscending (λ b. b.id) p f kept 1 db.builds.next_id db.builds.rows h.build_keys) more
      (All-modify (λ b. has_upload db b.upload_id ≡ true) p f db.builds.rows uploads
        h.build_uploads)
      (All-map (λ b. refers (has_build db) b.parent_build_id ≡ true) _
        (modify_rows p f db.builds.rows) (λ b. refers-grows (has_build db) _ more b.parent_build_id)
        (All-modify (λ b. refers (has_build db) b.parent_build_id ≡ true) p f db.builds.rows parents
          h.build_parents))
  where
    more :
        (id : ℕ)
        → has_build db id ≡ true
        → any (λ b. b.id == id) (modify_rows p f db.builds.rows) ≡ true
    more id held =
        any-modify (λ b. b.id == id) p f db.builds.rows (λ b. ap (λ n. n == id) (kept b)) ∙ held

-- The build files of an UPDATE that keeps their ids, and what it writes for their references.
updated_files-IsValid :
    (db : Db) (h : IsValid db) (p : BuildFile → Bool) (f : BuildFile → BuildFile)
    → ((b : BuildFile) → (f b).id ≡ b.id)
    → ((b : BuildFile) → has_build db b.build_id ≡ true → has_build db (f b).build_id ≡ true)
    → IsValid (record db { build_files = modify p f db.build_files })
updated_files-IsValid db h p f kept builds =
    build_files-IsValid db h (modify p f db.build_files)
      (modify-IsAscending (λ b. b.id) p f kept 1 db.build_files.next_id db.build_files.rows
        h.file_keys)
      (λ id held.
        any-modify (λ b. b.id == id) p f db.build_files.rows (λ b. ap (λ n. n == id) (kept b))
        ∙ held)
      (All-modify (λ b. has_build db b.build_id ≡ true) p f db.build_files.rows builds
        h.file_builds)

module _ {e : Env} where
  pub create_build-Valid : (given : Build) → Keeps {e = e} Valid (create_build given)
  unfolding create_build
  create_build-Valid given = exec-Valid _ _ λ now db allowed h.
      let (upload, parent) = and_true (has_upload db given.upload_id) _ allowed in
      builds-IsValid db h _
        (insert-IsAscending (λ b. b.id) 1 db.builds.next_id db.builds.rows _ refl h.build_keys)
        (λ id. any-append (λ b. b.id == id) db.builds.rows _)
        (All-append (λ b. has_upload db b.upload_id ≡ true) db.builds.rows _ h.build_uploads upload)
        (All-map (λ b. refers (has_build db) b.parent_build_id ≡ true) _ _
          (λ b.
            refers-grows (has_build db) _ (λ id. any-append (λ b. b.id == id) db.builds.rows _)
              b.parent_build_id)
          (All-append (λ b. refers (has_build db) b.parent_build_id ≡ true) db.builds.rows _
            h.build_parents parent))

  pub update_build-Valid : (given : Build) → Keeps {e = e} Valid (update_build given)
  unfolding update_build
  update_build-Valid given = exec-Valid _ _ λ now db allowed h.
      let (upload, parent) = and_true (has_upload db given.upload_id) _ allowed in
      updated_builds-IsValid db h _ _ (λ b. refl) (λ b old. upload) (λ b old. parent)

  pub claim_build_processing-Valid : (id : ℕ) → Keeps {e = e} Valid (claim_build_processing id)
  unfolding claim_build_processing
  claim_build_processing-Valid id =
      exec-Valid _ _ λ now db allowed h.
        updated_builds-IsValid db h _ _ (λ b. refl) (λ b old. old) (λ b old. old)

  pub create_build_file-Valid : (given : BuildFile) → Keeps {e = e} Valid (create_build_file given)
  unfolding create_build_file
  create_build_file-Valid given = exec-Valid _ _ λ now db allowed h.
      build_files-IsValid db h _
        (insert-IsAscending (λ f. f.id) 1 db.build_files.next_id db.build_files.rows _ refl
          h.file_keys)
        (λ id. any-append (λ f. f.id == id) db.build_files.rows _)
        (All-append (λ f. has_build db f.build_id ≡ true) db.build_files.rows _ h.file_builds
          allowed)

  pub update_build_file-Valid : (given : BuildFile) → Keeps {e = e} Valid (update_build_file given)
  unfolding update_build_file
  update_build_file-Valid given =
      exec-Valid _ _
        λ now db allowed h. updated_files-IsValid db h _ _ (λ f. refl) (λ f old. allowed)

  pub touch_build_file_access-Valid : (id : ℕ) → Keeps {e = e} Valid (touch_build_file_access id)
  unfolding touch_build_file_access
  touch_build_file_access-Valid id =
      exec-Valid _ _ λ now db allowed h. updated_files-IsValid db h _ _ (λ f. refl) (λ f old. old)
