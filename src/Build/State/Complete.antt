-- ===== src/Build/State/Complete.antt =====
-- What `checkAndUpdateBuildState` completes.
use den_kit_stash.Base.{
  ℕ, zero, suc, ◌≡◌, refl, sym, subst, inl, inr, Bool, true, false, ◌&&◌, ◌==◌, number_eq, List,
  any, find-passes, eq_of_true,
}
use den_kit_stash.Model.{Build, BuildFile, BuildState, processing, is_completed}
use den_kit_stash.World.{Env, World, Action, Error, ◌>>◌}
use den_kit_stash.World.Laws.{
  ticked, Result-cases, query-ok, query-world, query_row-ok, query_row-world,
}
use den_kit_stash.Database.Builds.{claim_build_processing, get_build_by_id, find_build}
use den_kit_stash.Database.Files.{get_build_files_by_build_id}
use den_kit_stash.Build.State.{
  Verdict, verdict, fail, generate, complete, wait, is_open, claim_or_leave, act, examine,
  generate_or_fail, check_build_state, check_and_update_build_state,
}
use den_kit_stash.Build.State.Completion.{complete_needs_files}
use den_kit_stash.Build.State.Open.{IsOpenStill, HasAllFiles, files_of, IsCompletedWell}
use den_kit_stash.Build.State.Written.{
  open-Frame, open-update, open-claim, open-generate, complete_build-MayBeCompleted,
}

module _ {e : Env} (rows : List Build) (build : Build) (again : Action e Error (Unit {0}))
    (well : (w : World e)
      → IsOpenStill build.id rows w
      → IsCompletedWell build.id rows (again w).1) where
  claim-Well :
      (w : World e)
      → IsOpenStill build.id rows w
      → IsCompletedWell build.id rows (claim_or_leave build again w).1
  claim-Well w h =
      let after = (open-claim build.id rows).at w h in
      elim (Result-cases (claim_build_processing build.id w).0) [
        | inr (x, eq) ↦ inl (rw eq after)
        | inl (false, eq) ↦ inl (rw eq after)
        | inl (true, eq) ↦ rw eq (generated (claim_build_processing build.id w).1 after)
      ]
    where
      generated :
          (w : World e)
          → IsOpenStill build.id rows w
          → IsCompletedWell build.id rows
              ((generate_or_fail (record build { state = processing }) >> again) w).1
      generated w h =
          let b : Build = record build { state = processing } in
          let after = (open-generate build.id rows b refl).at w h in
          elim (Result-cases (generate_or_fail b w).0) [
            | inr (x, eq) ↦ inl (rw eq after)
            | inl (u, eq) ↦ rw eq (well (generate_or_fail b w).1 after)
          ]

  act-Well :
      (files : List BuildFile) (v : Verdict) (w : World e)
      → verdict build.state files ≡ v
      → files_of w.db build.id ≡ files
      → IsOpenStill build.id rows w
      → IsCompletedWell build.id rows (act build files v again w).1
  act-Well files fail w eq read h =
      inl
        ((open-update build.id rows (record build { state = BuildState.failed }) refl refl).at w h)
  act-Well files generate w eq read h = claim-Well w h
  act-Well files complete w eq read h =
      let all : HasAllFiles w.db build.id = rw read (complete_needs_files build.state files eq) in
      inr (
        (complete_build-MayBeCompleted build.id rows build files refl).at w
          (record { files = all; others = h.others }))
  act-Well files wait w eq read h = inl h

  examine-Well :
      (open_now : Bool) (w : World e)
      → IsOpenStill build.id rows w
      → IsCompletedWell build.id rows (examine build open_now again w).1
  unfolding get_build_files_by_build_id
  examine-Well false w h = inl h
  examine-Well true w h =
      let after : IsOpenStill build.id rows (get_build_files_by_build_id build.id w).1 =
        rw query-world (open-Frame build.id rows w (ticked w) refl h) in
      elim (Result-cases (get_build_files_by_build_id build.id w).0) [
        | inr (x, eq) ↦ inl (rw eq after)
        | inl (files, eq) ↦
            let read : files_of (get_build_files_by_build_id build.id w).1.db build.id ≡ files =
              rw query-world (query-ok _ w files eq) in
            rw eq (
              act-Well files (verdict build.state files) (get_build_files_by_build_id build.id w).1
                refl read after)
      ]

check-Well :
    {e : Env} (rows : List Build) (rounds id : ℕ) (w : World e)
    → IsOpenStill id rows w
    → IsCompletedWell id rows (check_build_state rounds id w).1
unfolding check_build_state get_build_by_id
check-Well rows zero id w h = inl h
check-Well {e} rows (suc rounds) id w h =
    let after : IsOpenStill id rows (get_build_by_id id w).1 =
      rw query_row-world (open-Frame id rows w (ticked w) refl h) in
    elim (Result-cases (get_build_by_id id w).0) [
      | inr (x, eq) ↦ inl (rw eq after)
      | inl (build, eq) ↦
          let row = query_row-ok (λ db. find_build db id) w build eq in
          let same : build.id ≡ id =
            eq_of_true build.id id (find-passes (λ b. b.id == id) w.db.builds.rows build row) in
          let again : Action e Error (Unit {0}) = λ w. check_build_state rounds id w in
          let well =
            subst (λ n. (w : World e) → IsOpenStill n rows w → IsCompletedWell n rows (again w).1)
              (sym same) (check-Well rows rounds id) in
          rw eq (
            subst
              (λ n.
                IsCompletedWell n rows
                  (examine build (is_open build.state) again (get_build_by_id id w).1).1)
              same
              (examine-Well rows build again well (is_open build.state) (get_build_by_id id w).1
                (subst (λ n. IsOpenStill n rows (get_build_by_id id w).1) (sym same) after)))
    ]

-- Where no row of the build is completed, `checkAndUpdateBuildState` leaves none completed, unless none
-- of the build's files in the tables that it leaves has failed and a patch, a signature and an archive of
-- it are there, uploaded and not empty, so also where it generates the archive or is broken off. The rows of
-- other builds stay as they were.
pub check_and_update_build_state-IsCompletedWell :
    {e : Env} (id : ℕ) (w : World e)
    → any (λ b. b.id == id && is_completed b.state) w.db.builds.rows ≡ false
    → IsCompletedWell id w.db.builds.rows (check_and_update_build_state id w).1
unfolding check_and_update_build_state
check_and_update_build_state-IsCompletedWell id w h =
    check-Well w.db.builds.rows 2 id w (record { not_completed = h; others = refl })
