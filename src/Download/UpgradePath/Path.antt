-- ===== src/Download/UpgradePath/Path.antt =====
-- What an upgrade path is, and that `resolveUpgradePath` finds only such.
use den_kit_stash.Base.{
  ℕ, zero, suc, ◌≡◌, refl, sym, ap, ◌∙◌, Bool, true, false, ◌==◌, number_eq, some, List, [], ◌∷◌,
  All, eq_of_true, Bool-cases, Option-cases, inl, inr, subst, text_eq,
}
use den_kit_stash.Database.Builds.Found.{get_build_by_id-ok, get_build_by_id-db}
use den_kit_stash.Model.{Build, BuildFile}
use den_kit_stash.World.{Env, World, Action, Error, Result, ok, ◌>>=◌, ◌>>◌}
use den_kit_stash.World.Tables.{Db}
use den_kit_stash.World.Laws.{bind-ok, bind-run}
use den_kit_stash.Database.Builds.{get_build_by_id, find_build}
use den_kit_stash.Archive.Files.{find_build_file}
use den_kit_stash.Archive.Files.Ready.{ready_file, find_build_file-ok, find_build_file-db}
use den_kit_stash.Download.UpgradePath.{
  same_channel, require_same, walk_back, require_patches, tail, resolve_upgrade_path,
}

-- From a build on to the target: each next build has the one before as its parent, which is the row
-- of its id and of the target's upload and channel.
abbrev pub IsChain : Db → Build → Build → List Build → Type 0
IsChain db target build [] = build ≡ target
IsChain db target build (next ∷ rest) =
    (next.parent_build_id ≡ some build.id)
    × (find_build db build.id ≡ some build)
    × (same_channel target build ≡ true)
    × IsChain db target next rest

abbrev pub HasPatch : Db → Build → Type 0
HasPatch db build = (f : BuildFile) × (ready_file db build.id "patch" ≡ some f)

-- A path that begins at the installed build and ends at the target.
abbrev pub IsUpgradePath : Db → ℕ → Build → List Build → Type 0
IsUpgradePath db installed_id target path =
    (first : Build) × (rest : List Build) × (path ≡ first ∷ rest)
    × (first.id ≡ installed_id)
    × IsChain db target first rest
    × All (HasPatch db) rest

require_same-ok :
    {e : Env} (b : Bool) (w : World e) (u : Unit {0})
    → (require_same b w).0 ≡ ok u
    → (b ≡ true) × ((require_same b w).1 ≡ w)
require_same-ok true w u h = (refl, refl)
require_same-ok false w u h = cc

-- The path that the walk back ends with.
abbrev IsWalk : Db → ℕ → Build → List Build → Type 0
IsWalk db installed_id target path =
    (first : Build) × (rest : List Build) × (path ≡ first ∷ rest)
    × (first.id ≡ installed_id)
    × IsChain db target first rest

-- What one call of the walk's loop does behind its test.
abbrev step : {e : Env} → ℕ → ℕ → Build → Build → List Build → Build → Action e Error (List Build)
step fuel installed_id target current rest parent =
    require_same (same_channel target parent)
    >> walk_back fuel installed_id target parent (parent ∷ current ∷ rest)

step_sound :
    {e : Env} (fuel installed_id : ℕ) (target current : Build) (rest path : List Build)
    (w : World e) (parent_id : ℕ)
    → ((parent : Build) (v : World e)
        → IsChain v.db target parent (current ∷ rest)
        → (walk_back fuel installed_id target parent (parent ∷ current ∷ rest) v).0 ≡ ok path
        → IsWalk v.db installed_id target path
          × ((walk_back fuel installed_id target parent (parent ∷ current ∷ rest) v).1.db ≡ v.db))
    → IsChain w.db target current rest
    → current.parent_build_id ≡ some parent_id
    → ((get_build_by_id parent_id >>= step fuel installed_id target current rest) w).0 ≡ ok path
    → IsWalk w.db installed_id target path
      × (((get_build_by_id parent_id >>= step fuel installed_id target current rest) w).1.db ≡ w.db)
step_sound {e} fuel installed_id target current rest path w parent_id ih c link h =
    let next : Build → Action e Error (List Build) = step fuel installed_id target current rest in
    let (parent, got, h1) = bind-ok (get_build_by_id parent_id) next w path h in
    let w1 : World e = (get_build_by_id parent_id w).1 in
    let (found, named) = get_build_by_id-ok parent_id w parent got in
    let test : Action e Error (Unit {0}) = require_same (same_channel target parent) in
    let (u, tested, h2) = bind-ok test _ w1 path h1 in
    let (same, still) = require_same-ok (same_channel target parent) w1 u tested in
    let w2 : World e = (test w1).1 in
    let same_db : w2.db ≡ w.db = ap (λ v. v.db) still ∙ get_build_by_id-db parent_id w in
    let longer : IsChain w.db target parent (current ∷ rest) =
      (rw named link, rw named found, same, c) in
    let (walk, kept) =
      ih parent w2 (subst (λ d. IsChain d target parent (current ∷ rest)) (sym same_db) longer)
        h2 in
    (
      subst (λ d. IsWalk d installed_id target path) same_db walk,
      ap (λ r. r.1.db) (bind-run (get_build_by_id parent_id) next w parent got)
          ∙ ap (λ r. r.1.db) (bind-run test _ w1 u tested)
          ∙ kept
          ∙ same_db,
    )

walk_back_sound :
    {e : Env} (fuel installed_id : ℕ) (target current : Build) (rest path : List Build)
    (w : World e)
    → IsChain w.db target current rest
    → (walk_back fuel installed_id target current (current ∷ rest) w).0 ≡ ok path
    → IsWalk w.db installed_id target path
      × ((walk_back fuel installed_id target current (current ∷ rest) w).1.db ≡ w.db)
unfolding walk_back
walk_back_sound zero installed_id target current rest path w c h = cc
walk_back_sound (suc fuel) installed_id target current rest path w c h =
    elim (Bool-cases (current.id == installed_id)) [
      | inl here ↦
          let same : ◌≡◌ {A = Result Error (List Build)} (ok (current ∷ rest)) (ok path) =
            rw (here, walk_back) at h in
          ((current, rest, cc, eq_of_true current.id installed_id here, c), rw (here, walk_back))
      | inr away ↦ elim (Option-cases current.parent_build_id) [
        | inl root ↦ absurd (let bad = rw (away, walk_back, root) at h in cc bad)
        | inr (parent_id, link) ↦
            let (walk, same_db) =
              step_sound fuel installed_id target current rest path w parent_id
                (λ parent v.
                  walk_back_sound fuel installed_id target parent (current ∷ rest) path v)
                c link (rw (away, walk_back, link) at h) in
            (walk, rw (away, walk_back, link) same_db)
      ]
    ]

require_patches_sound :
    {e : Env} (path : List Build) (w : World e) (u : Unit {0})
    → (require_patches path w).0 ≡ ok u
    → All (HasPatch w.db) path
unfolding require_patches
require_patches_sound [] w u h = tt
require_patches_sound (build ∷ rest) w u h =
    let (f, got, h1) = bind-ok (find_build_file build.id "patch" "default") _ w u h in
    let w1 = (find_build_file build.id "patch" "default" w).1 in
    (
      (f, find_build_file-ok build.id "patch" w f got),
      subst (λ d. All (HasPatch d) rest) (find_build_file-db build.id "patch" "default" w)
          (require_patches_sound rest w1 u h1),
    )

-- A path that `resolveUpgradePath` gives, with any fuel, begins at a build with the installed id and
-- ends at the row of the target. Each next build has the one before as its parent, every build
-- before the target is the row of its id in the target's upload and channel, and every build
-- after the first has an uploaded patch.
pub resolve_upgrade_path_sound :
    {e : Env} (fuel installed_id target_id : ℕ) (path : List Build) (w : World e)
    → (resolve_upgrade_path fuel installed_id target_id w).0 ≡ ok path
    → (target : Build) × (find_build w.db target_id ≡ some target)
      × IsUpgradePath w.db installed_id target path
unfolding resolve_upgrade_path
resolve_upgrade_path_sound {e} fuel installed_id target_id path w h =
    let (target, got, h1) = bind-ok (get_build_by_id target_id) _ w path h in
    let w1 : World e = (get_build_by_id target_id w).1 in
    let same_db : w1.db ≡ w.db = get_build_by_id-db target_id w in
    let walk : Action e Error (List Build) =
      walk_back fuel installed_id target target (target ∷ []) in
    let (found, walked, h2) = bind-ok walk _ w1 path h1 in
    let w2 : World e = (walk w1).1 in
    let (u, patched, h3) = bind-ok (require_patches (tail found)) _ w2 path h2 in
    let ((first, rest, eq, named, chain), kept) =
      walk_back_sound fuel installed_id target target [] found w1 refl walked in
    let patches = require_patches_sound (tail found) w2 u patched in
    let same : found ≡ path = cc h3 in
    (
      target,
      (get_build_by_id-ok target_id w target got).0,
      subst (λ d. IsUpgradePath d installed_id target path) same_db
          (
            first,
            rest,
            sym same ∙ eq,
            named,
            chain,
            subst (λ d. All (HasPatch d) rest) kept (rw eq at patches),
          ),
    )
