-- ===== src/Archive/Frame.antt =====
-- Calls that leave the builds and the channels alone.
pub mod Chain
use den_kit_stash.Base.{ℕ, String, Text, ◌≡◌, refl, inl, inr, Bool, Option, List, arith, suc}
use den_kit_stash.Model.{Build, BuildFile, Channel, Upload}
use den_kit_stash.World.{Env, World, Action, Error, call, query, query_row, exec}
use den_kit_stash.World.Tables.{Db, Table}
use den_kit_stash.World.Laws.{query-world, query_row-world, exec-world}
use den_kit_stash.World.Keeps.{Keeps, keeps_rules}
use den_kit_stash.Database.Builds.{get_build_by_id}
use den_kit_stash.Database.Projects.{get_upload_by_id, update_upload}
use den_kit_stash.Database.Files.{
  get_build_files_by_build_id, create_build_file, update_build_file, touch_build_file_access,
  get_build_file_by_id,
}
use den_kit_stash.Archive.Files.{
  find_build_file, find_build_file_any_state, head_object, download_object, upload_object,
  file_exists, new_uuid,
}
use den_kit_stash.Archive.Rebuild.{proceed, acquire_build_archive_lock, release_lock}

-- The builds and the channels are these.
pub record Frame {e : Env} (bs : Table Build) (cs : Table Channel) (w : World e) : Type 0 where
  pub builds : w.db.builds ≡ bs
  pub channels : w.db.channels ≡ cs

module _ {e : Env} {bs : Table Build} {cs : Table Channel} where
  Frame-query : {A : Type 0} (f : Db → A) → Keeps (Frame {e = e} bs cs) (query f)
  Frame-query f = record {
    at = λ w h. rw query-world (record { builds = h.builds; channels = h.channels });
  }

  Frame-query_row : {A : Type 0} (f : Db → Option A) → Keeps (Frame {e = e} bs cs) (query_row f)
  Frame-query_row f = record {
    at = λ w h. rw query_row-world (record { builds = h.builds; channels = h.channels });
  }

  pub Frame-get_build_by_id : (id : ℕ) → Keeps (Frame {e = e} bs cs) (get_build_by_id id)
  unfolding get_build_by_id
  Frame-get_build_by_id id = Frame-query_row _

  pub Frame-files : (id : ℕ) → Keeps (Frame {e = e} bs cs) (get_build_files_by_build_id id)
  unfolding get_build_files_by_build_id
  Frame-files id = Frame-query _

  pub Frame-find_build_file :
      (id : ℕ) (t s : String) → Keeps (Frame {e = e} bs cs) (find_build_file id t s)
  unfolding find_build_file
  Frame-find_build_file id t s = search (keeps_rules, Frame-files)

  pub Frame-head_object : (p : Text) → Keeps (Frame {e = e} bs cs) (head_object p)
  unfolding head_object call
  Frame-head_object p = record { at = λ w h. ground arith }

  pub Frame-update_build_file : (f : BuildFile) → Keeps (Frame {e = e} bs cs) (update_build_file f)
  unfolding update_build_file exec
  Frame-update_build_file f = record { at = λ w h. ground arith }

  Frame-call :
      {A : Type 0} (op : Action e Error A)
      → Keeps (Frame {e = e} bs cs) op
      → Keeps (Frame {e = e} bs cs) (call op)
  unfolding call
  Frame-call op k = record {
    at = λ w h. ground (
      arith,
      k.at (record w { calls = suc w.calls }) (record { builds = h.builds; channels = h.channels }),
    );
  }

  pub Frame-find_any :
      (id : ℕ) (t s : String) → Keeps (Frame {e = e} bs cs) (find_build_file_any_state id t s)
  unfolding find_build_file_any_state
  Frame-find_any id t s = search (keeps_rules, Frame-files)

  pub Frame-download_object : (p : Text) → Keeps (Frame {e = e} bs cs) (download_object p)
  unfolding download_object
  Frame-download_object p = Frame-call _ (record { at = λ w h. h })

  pub Frame-upload_object :
      (p : Text) (b : List ℕ) (n : ℕ) → Keeps (Frame {e = e} bs cs) (upload_object p b n)
  unfolding upload_object
  Frame-upload_object p b n =
      Frame-call _ (record { at = λ w h. record { builds = h.builds; channels = h.channels } })

  pub Frame-new_uuid : Keeps (Frame {e = e} bs cs) new_uuid
  Frame-new_uuid = record { at = λ w h. record { builds = h.builds; channels = h.channels } }

  pub Frame-file_exists : (p : Text) → Keeps (Frame {e = e} bs cs) (file_exists p)
  unfolding file_exists
  Frame-file_exists p = search (keeps_rules, Frame-head_object)

  pub Frame-create_build_file : (f : BuildFile) → Keeps (Frame {e = e} bs cs) (create_build_file f)
  unfolding create_build_file exec
  Frame-create_build_file f = record { at = λ w h. ground arith }

  pub Frame-touch : (id : ℕ) → Keeps (Frame {e = e} bs cs) (touch_build_file_access id)
  unfolding touch_build_file_access exec
  Frame-touch id = record { at = λ w h. ground arith }

  pub Frame-get_upload_by_id : (id : ℕ) → Keeps (Frame {e = e} bs cs) (get_upload_by_id id)
  unfolding get_upload_by_id
  Frame-get_upload_by_id id = Frame-query_row _

  pub Frame-update_upload : (u : Upload) → Keeps (Frame {e = e} bs cs) (update_upload u)
  unfolding update_upload exec
  Frame-update_upload u = record { at = λ w h. ground arith }

  pub Frame-proceed : Keeps (Frame {e = e} bs cs) proceed
  unfolding proceed
  Frame-proceed = Frame-call _ (record { at = λ w h. h })

  pub Frame-acquire : (id : ℕ) → Keeps (Frame {e = e} bs cs) (acquire_build_archive_lock id)
  unfolding acquire_build_archive_lock
  Frame-acquire id = Frame-call _ (record { at = λ w h. h })

  pub Frame-release : Keeps (Frame {e = e} bs cs) release_lock
  unfolding release_lock
  Frame-release = Frame-call _ (record { at = λ w h. h })

pub ruleset frame_rules = (
  keeps_rules, Frame-get_build_by_id, Frame-find_build_file, Frame-find_any, Frame-head_object,
  Frame-download_object, Frame-upload_object, Frame-new_uuid, Frame-file_exists,
  Frame-create_build_file, Frame-update_build_file, Frame-touch, Frame-get_upload_by_id,
  Frame-update_upload, Frame-proceed, Frame-acquire, Frame-release, Frame-files,
)
