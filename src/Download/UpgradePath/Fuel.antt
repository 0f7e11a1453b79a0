-- ===== src/Download/UpgradePath/Fuel.antt =====
-- The walk of `resolveUpgradePath` ends where every parent is older than its child.
use den_kit_stash.Base.{
  ℕ, zero, suc, ◌<◌, ◌≡◌, ◌≢◌, refl, sym, ap, ◌∙◌, subst, Bool, true, false, ◌==◌, number_eq,
  text_eq, Option, none, some, List, [], ◌∷◌, All, ltb, ltb→lt, find, Bool-cases, Option-cases, inl,
  inr, arith,
}
use den_kit_stash.Model.{Build}
use den_kit_stash.World.{
  Env, World, Action, Error, failure, Result, ok, err, ◌>>=◌, ◌>>◌, query_row, query, call, lift,
  from_option,
}
use den_kit_stash.World.Tables.{Db}
use den_kit_stash.World.Laws.{Result-cases, bind-run}
use den_kit_stash.Database.Builds.{get_build_by_id, find_build}
use den_kit_stash.Database.Files.{get_build_files_by_build_id}
use den_kit_stash.Archive.Files.{find_build_file, is_ready}
use den_kit_stash.Database.Builds.Found.{get_build_by_id-ok, get_build_by_id-db}
use den_kit_stash.Download.UpgradePath.{
  same_channel, require_same, walk_back, require_patches, tail, resolve_upgrade_path,
}

-- Whether the parent of the build, if any, has a smaller id.
abbrev pub is_younger : Build → Option ℕ → Bool
is_younger b none = true
is_younger b (some parent_id) = ltb parent_id b.id

abbrev pub HasOlderParents : Db → Type 0
HasOlderParents db = All (λ b. is_younger b b.parent_build_id ≡ true) db.builds.rows

err-inj : {A : Type 0} {x y : Error} → ◌≡◌ {A = Result Error A} (err x) (err y) → x ≡ y
err-inj h = cc h

abbrev wants_fuel : Error → Bool
wants_fuel (failure s) = s == "out of fuel"
wants_fuel _ = false

All-find :
    (Q : Build → Type 0) (p : Build → Bool) (bs : List Build) (b : Build)
    → All Q bs
    → find p bs ≡ some b
    → Q b
All-find Q p [] b all h = cc h
All-find Q p (x ∷ xs) b all h = elim (Bool-cases (p x)) [
  | inl here ↦
      let same : ◌≡◌ {A = Option Build} (some x) (some b) = rw here at h in subst Q (cc same) all.0
  | inr away ↦ All-find Q p xs b all.1 (rw away at h)
]

-- The action does not stop for want of fuel.
Lasts : {e : Env} {A : Type 0} → Action e Error A → World e → Type 0
Lasts m w = (m w).0 ≢ err (failure "out of fuel")

bind-Lasts :
    {e : Env} {A B : Type 0} (m : Action e Error A) (f : A → Action e Error B) (w : World e)
    → Lasts m w
    → ((a : A) → (m w).0 ≡ ok a → Lasts (f a) (m w).1)
    → Lasts (m >>= f) w
unfolding Lasts
bind-Lasts {e} {A} {B} m f w km kf = elim (Result-cases (m w).0) [
  | inl (a, p) ↦ λ bad. kf a p (sym (ap (λ r. r.0) (bind-run m f w a p)) ∙ bad)
  | inr (x, p) ↦ λ bad.
      let b : ◌≡◌ {A = Result Error B} (err x) (err (failure "out of fuel")) = rw p at bad in
      km (p ∙ ap err (err-inj b))
]

get_build_by_id-Lasts : {e : Env} (id : ℕ) (w : World e) → Lasts (get_build_by_id id) w
unfolding Lasts get_build_by_id query_row call
get_build_by_id-Lasts id w = ground arith

require_same-Lasts : {e : Env} (b : Bool) (w : World e) → Lasts (require_same b) w
unfolding Lasts
require_same-Lasts true w bad = cc bad
require_same-Lasts false w bad = cc (ap wants_fuel (err-inj bad))

abbrev missing : Error
missing = failure "build file not found"

missing-Lasts : {A : Type 0} (o : Option A) → from_option missing o ≢ err (failure "out of fuel")
missing-Lasts none bad = cc (ap wants_fuel (err-inj bad))
missing-Lasts (some a) bad = cc bad

query-Lasts : {e : Env} {A : Type 0} (f : Db → A) (w : World e) → Lasts (query f) w
unfolding Lasts query call
query-Lasts f w = ground arith

find_build_file-Lasts :
    {e : Env} (id : ℕ) (w : World e) → Lasts (find_build_file id "patch" "default") w
unfolding Lasts find_build_file get_build_files_by_build_id
find_build_file-Lasts id w =
    bind-Lasts (get_build_files_by_build_id id)
      (λ files. lift (from_option missing (find (is_ready "patch" "default") files))) w
      (query-Lasts _ w) λ files got bad. missing-Lasts (find (is_ready "patch" "default") files) bad

same_tables :
    {e : Env} (target parent : Build) (parent_id : ℕ) (w : World e)
    → (require_same (same_channel target parent) (get_build_by_id parent_id w).1).1.db ≡ w.db
same_tables target parent parent_id w =
    ap (λ v. v.db) (require_same_world (same_channel target parent) (get_build_by_id parent_id w).1)
    ∙ get_build_by_id-db parent_id w
  where
    require_same_world : {e : Env} (b : Bool) (v : World e) → (require_same b v).1 ≡ v
    require_same_world true v = refl
    require_same_world false v = refl

step-Lasts :
    {e : Env} (fuel installed_id : ℕ) (target : Build) (path : List Build) (parent_id : ℕ)
    (w : World e)
    → ((parent : Build)
        → find_build w.db parent_id ≡ some parent
        → parent.id ≡ parent_id
        → Lasts
            (walk_back fuel installed_id target parent (parent ∷ path))
            (require_same (same_channel target parent) (get_build_by_id parent_id w).1).1)
    → Lasts
        (get_build_by_id parent_id >>= λ parent.
          require_same (same_channel target parent)
          >> walk_back fuel installed_id target parent (parent ∷ path))
        w
step-Lasts fuel installed_id target path parent_id w ih =
    bind-Lasts (get_build_by_id parent_id) _ w (get_build_by_id-Lasts parent_id w) λ parent got.
      let (found, named) = get_build_by_id-ok parent_id w parent got in
      bind-Lasts (require_same (same_channel target parent)) _ _ (require_same-Lasts _ _)
        λ u tested. ih parent found named

walk_back-Lasts :
    {e : Env} (fuel installed_id : ℕ) (target current : Build) (path : List Build) (w : World e)
    → HasOlderParents w.db
    → is_younger current current.parent_build_id ≡ true
    → current.id < fuel
    → Lasts (walk_back fuel installed_id target current path) w
unfolding Lasts walk_back
walk_back-Lasts zero installed_id target current path w older younger enough = absurd (omega arith)
walk_back-Lasts (suc fuel) installed_id target current path w older younger enough =
    elim (Bool-cases (current.id == installed_id)) [
      | inl here ↦ λ bad.
          let b : ◌≡◌ {A = Result Error (List Build)} (ok path) (err (failure "out of fuel")) =
            rw (here, walk_back) at bad in
          cc b
      | inr away ↦ elim (Option-cases current.parent_build_id) [
        | inl root ↦ λ bad.
            let b : ◌≡◌ {A = Result Error (List Build)} (err (failure "no parent build"))
                (err (failure "out of fuel")) =
              rw (away, walk_back, root) at bad in
            cc (ap wants_fuel (err-inj b))
        | inr (parent_id, link) ↦ λ bad.
            step-Lasts fuel installed_id target path parent_id w
              (λ parent found named.
                walk_back-Lasts fuel installed_id target parent (parent ∷ path) _
                  (subst HasOlderParents (sym (same_tables target parent parent_id w)) older)
                  (All-find (λ b. is_younger b b.parent_build_id ≡ true) _ _ parent older found)
                  (let older_id = ltb→lt parent_id current.id (rw link at younger) in
                    omega (arith, named)))
              (rw (away, walk_back, link) at bad)
      ]
    ]

require_patches-Lasts : {e : Env} (path : List Build) (w : World e) → Lasts (require_patches path) w
unfolding require_patches Lasts
require_patches-Lasts [] w = λ bad. cc bad
require_patches-Lasts (build ∷ rest) w =
    bind-Lasts (find_build_file build.id "patch" "default") (λ _. require_patches rest) w
      (find_build_file-Lasts build.id w) λ f got. require_patches-Lasts rest _

-- Where every parent has a smaller id than its child, fuel above the target's id is enough: the walk
-- of `resolveUpgradePath` ends with a path or with an error of the program, and never for want of
-- fuel.
pub resolve_upgrade_path_ends :
    {e : Env} (fuel installed_id target_id : ℕ) (w : World e)
    → HasOlderParents w.db
    → target_id < fuel
    → (resolve_upgrade_path fuel installed_id target_id w).0 ≢ err (failure "out of fuel")
unfolding resolve_upgrade_path Lasts
resolve_upgrade_path_ends fuel installed_id target_id w older enough =
    bind-Lasts (get_build_by_id target_id) _ w (get_build_by_id-Lasts target_id w) λ target got.
      let (found, named) = get_build_by_id-ok target_id w target got in
      bind-Lasts (walk_back fuel installed_id target target (target ∷ [])) _ _
        (walk_back-Lasts fuel installed_id target target (target ∷ []) _
          (subst HasOlderParents (sym (get_build_by_id-db target_id w)) older)
          (All-find (λ b. is_younger b b.parent_build_id ≡ true) _ _ target older found)
          (omega (arith, named)))
        λ path walked.
          bind-Lasts (require_patches (tail path)) _ _ (require_patches-Lasts (tail path) _)
            λ u checked bad. cc bad
