-- ===== src/Build/State/Written.antt =====
-- What the steps of `checkAndUpdateBuildState` write to builds.
use den_kit_stash.Base.{
  ℕ, Text, String, suc, ◌≡◌, refl, ap, ◌∙◌, inl, inr, Bool, true, false, not, ◌&&◌, ◌==◌, number_eq,
  some, none, Option, List, any, select, arith,
}
use den_kit_stash.Model.{
  Build, BuildFile, Channel, Upload, BuildState, completed, processing, is_completed, is_started,
}
use den_kit_stash.World.{
  Env, World, Error, failure, exec, pure, raise, attempt, ◌>>◌, query, query_row,
}
use den_kit_stash.World.Tables.{Db, Table, modify}
use den_kit_stash.World.Keeps.{
  Keeps, keeps_rules, Keeps-pure, Keeps-bind, Keeps-or_fail, Keeps-attempt, Keeps-raise,
}
use den_kit_stash.World.Laws.{exec-world, query-world, query_row-world}
use den_kit_stash.Database.Builds.{
  has_upload, has_build, refers, update_build, claim_build_processing,
}
use den_kit_stash.Database.Channels.{update_channel, get_channel_by_name}
use den_kit_stash.Database.Projects.{get_upload_by_id, update_upload}
use den_kit_stash.Archive.Frame.{Frame, frame_rules, Frame-proceed, Frame-create_build_file}
use den_kit_stash.Archive.Frame.Chain.{
  Frame-ensure_archive, Frame-materialize, Frame-read_parent_signature, Frame-apply_patch_step,
  Frame-compress,
}
use den_kit_stash.Build.State.{
  update_upload_from_archive_metadata, update_upload_size_from_archive,
  advance_completed_channel_head, complete_build, generate_or_fail, generate_archive_default,
  parent_tree,
}
use den_kit_stash.Build.State.Open.{IsOpenStill, MayBeCompleted, others-modify, open-modify}

-- The statements of UpdateBuild and ClaimBuildProcessing.
abbrev is_row : Build → Build → Bool
is_row b c = c.id == b.id

abbrev row_of : Build → ℕ → Build → Build
row_of b now c = record b { id = c.id; created_at = c.created_at; updated_at = now }

abbrev allowed : Build → Db → Bool
allowed b db = has_upload db b.upload_id && refers (has_build db) b.parent_build_id

abbrev written : Build → ℕ → Db → Unit {0} × Db
written b now db = (tt, record db { builds = modify (is_row b) (row_of b now) db.builds })

abbrev is_free : ℕ → Build → Bool
is_free id b = b.id == id && is_started b.state

abbrev claimed_row : ℕ → Build → Build
claimed_row now b = record b { state = processing; updated_at = now }

abbrev claimed : ℕ → ℕ → Db → Bool × Db
claimed id now db = (
  any (is_free id) db.builds.rows,
  record db { builds = modify (is_free id) (claimed_row now) db.builds },
)

module _ {e : Env} {bs : Table Build} {cs : Table Channel} where
  Frame-parent_tree : (o : Option ℕ) → Keeps (Frame {e = e} bs cs) (parent_tree o)
  unfolding parent_tree
  Frame-parent_tree none = Keeps-pure _
  Frame-parent_tree (some id) = Keeps-bind _ _ (Frame-ensure_archive id) λ _.
      Keeps-bind _ _ (Frame-materialize id) λ tree.
        Keeps-bind _ _ (Keeps-or_fail _ _ (Frame-read_parent_signature id)) λ _. Keeps-pure _

  Frame-metadata :
      (b : Build) (m : Option (Text × Text)) (size : ℕ)
      → Keeps (Frame {e = e} bs cs) (update_upload_from_archive_metadata b m size)
  unfolding update_upload_from_archive_metadata
  Frame-metadata b none size = Keeps-pure _
  Frame-metadata b (some m) size = search frame_rules

  Frame-generate_archive : (b : Build) → Keeps (Frame {e = e} bs cs) (generate_archive_default b)
  unfolding generate_archive_default
  Frame-generate_archive b = Keeps-bind _ _ Frame-proceed λ _.
      Keeps-bind _ _ (Frame-parent_tree b.parent_build_id) λ start.
        Keeps-bind _ _ (Frame-apply_patch_step b start.0 start.1) λ step.
          Keeps-bind _ _ (Frame-compress b step.tree) λ packed.
            Keeps-bind _ _ (Frame-metadata b packed.2 packed.1)
              λ _. Keeps-bind _ _ (Frame-create_build_file _) λ _. Keeps-pure _

module _ {e : Env} (id : ℕ) (rows : List Build) where
  pub open-Frame :
      (w w' : World e) → w'.db.builds ≡ w.db.builds → IsOpenStill id rows w → IsOpenStill id rows w'
  open-Frame w w' same h = record {
    not_completed =
        ap (λ t. any (λ b. b.id == id && is_completed b.state) t.rows) same ∙ h.not_completed;
    others = ap (λ t. select (λ b. not (b.id == id)) t.rows) same ∙ h.others;
  }

  -- A build that is given another state than completed.
  pub open-update :
      (b : Build)
      → b.id ≡ id
      → is_completed b.state ≡ false
      → Keeps (IsOpenStill {e = e} id rows) (update_build b)
  unfolding update_build
  open-update b same h = record {
    at = λ w o. elim (exec-world (allowed b) (written b) w) [
      | inl kept ↦ rw kept (record { not_completed = o.not_completed; others = o.others })
      | inr (_, changed) ↦ rw changed (record {
        not_completed =
            open-modify id (is_row b) (row_of b (e.now (suc w.calls))) w.db.builds.rows (λ c. h)
              o.not_completed;
        others =
            others-modify id (is_row b) (row_of b (e.now (suc w.calls))) w.db.builds.rows
              (λ c k. rw same k) (λ c. refl)
            ∙ o.others;
      })
    ];
  }

  pub open-claim : Keeps (IsOpenStill {e = e} id rows) (claim_build_processing id)
  unfolding claim_build_processing
  open-claim = record {
    at = λ w o. elim (exec-world (λ db. true) (claimed id) w) [
      | inl kept ↦ rw kept (record { not_completed = o.not_completed; others = o.others })
      | inr (_, changed) ↦ rw changed (record {
        not_completed =
            open-modify id (is_free id) (claimed_row (e.now (suc w.calls))) w.db.builds.rows
              (λ c. refl) o.not_completed;
        others =
            others-modify id (is_free id) (claimed_row (e.now (suc w.calls))) w.db.builds.rows
              (λ c k. rw k refl) (λ c. refl)
            ∙ o.others;
      })
    ];
  }

  -- Whatever is written to the builds of the id, and to uploads and channels.
  may-update : (b : Build) → b.id ≡ id → Keeps (MayBeCompleted {e = e} id rows) (update_build b)
  unfolding update_build
  may-update b same = record {
    at = λ w h. elim (exec-world (allowed b) (written b) w) [
      | inl kept ↦ rw kept (record { files = h.files; others = h.others })
      | inr (_, changed) ↦ rw changed (record {
        files = h.files;
        others =
            others-modify id (is_row b) (row_of b (e.now (suc w.calls))) w.db.builds.rows
              (λ c k. rw same k) (λ c. refl)
            ∙ h.others;
      })
    ];
  }

  may-upload : (u : Upload) → Keeps (MayBeCompleted {e = e} id rows) (update_upload u)
  unfolding update_upload exec
  may-upload u = record { at = λ w h. ground arith }

  may-channel : (c : Channel) → Keeps (MayBeCompleted {e = e} id rows) (update_channel c)
  unfolding update_channel exec
  may-channel c = record { at = λ w h. ground arith }

  may-query : {A : Type 0} (f : Db → A) → Keeps (MayBeCompleted {e = e} id rows) (query f)
  may-query f = record {
    at = λ w h. rw query-world (record { files = h.files; others = h.others });
  }

  may-query_row :
      {A : Type 0} (f : Db → Option A) → Keeps (MayBeCompleted {e = e} id rows) (query_row f)
  may-query_row f = record {
    at = λ w h. rw query_row-world (record { files = h.files; others = h.others });
  }

  may-get_upload : (n : ℕ) → Keeps (MayBeCompleted {e = e} id rows) (get_upload_by_id n)
  unfolding get_upload_by_id
  may-get_upload n = may-query_row _

  may-get_channel :
      (name : String) (n : ℕ) → Keeps (MayBeCompleted {e = e} id rows) (get_channel_by_name name n)
  unfolding get_channel_by_name
  may-get_channel name n = may-query_row _

  may-size :
      (b : Build) (f : Option BuildFile)
      → Keeps (MayBeCompleted {e = e} id rows) (update_upload_size_from_archive b f)
  unfolding update_upload_size_from_archive
  may-size b none = search keeps_rules
  may-size b (some f) = search (keeps_rules, may-get_upload, may-upload)

  may-advance :
      (b : Build) → Keeps (MayBeCompleted {e = e} id rows) (advance_completed_channel_head b)
  unfolding advance_completed_channel_head
  may-advance b = search (keeps_rules, may-get_channel, may-channel)

  pub complete_build-MayBeCompleted :
      (b : Build) (files : List BuildFile)
      → b.id ≡ id
      → Keeps (MayBeCompleted {e = e} id rows) (complete_build b files)
  unfolding complete_build
  complete_build-MayBeCompleted b files same =
      Keeps-bind _ _ (Keeps-or_fail _ _ (may-size b _)) λ _.
        Keeps-bind _ _ (Keeps-or_fail _ _ (may-update (record b { state = completed }) same))
          λ _. may-advance (record b { state = completed })

  -- The archive is made, which writes no build, or the build fails.
  open-generate_archive :
      (b : Build) → Keeps (IsOpenStill {e = e} id rows) (generate_archive_default b)
  open-generate_archive b = record {
    at = λ w h.
        let kept : Frame w.db.builds w.db.channels (generate_archive_default b w).1 =
          (Frame-generate_archive b).at w (record { builds = refl; channels = refl }) in
        open-Frame w (generate_archive_default b w).1 kept.builds h;
  }

  open-after :
      (b : Build) (made : Option (Unit {0}))
      → b.id ≡ id
      → Keeps {E = Error} {A = Unit {0}} (IsOpenStill {e = e} id rows) (elim made [
        | some _ ↦ pure tt
        | none ↦ do
          attempt {F = Error} (update_build (record b { state = BuildState.failed }))
          raise (failure "failed to generate archive/default")
      ])
  open-after b (some _) same = Keeps-pure tt
  open-after b none same =
      Keeps-bind _ _
        (Keeps-attempt _ (open-update (record b { state = BuildState.failed }) same refl))
        λ _. Keeps-raise (failure "failed to generate archive/default")

  pub open-generate :
      (b : Build) → b.id ≡ id → Keeps (IsOpenStill {e = e} id rows) (generate_or_fail b)
  unfolding generate_or_fail
  open-generate b same =
      Keeps-bind _ _ (Keeps-attempt _ (open-generate_archive b)) λ made. open-after b made same
