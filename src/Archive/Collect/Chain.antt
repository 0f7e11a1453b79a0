-- ===== src/Archive/Collect/Chain.antt =====
-- That `collectRebuildChain` finds a chain from which the archive can be replayed.
use den_kit_stash.Base.{
  ℕ, String, zero, suc, ◌+◌, ◌≤◌, ◌≡◌, refl, ap, ◌∙◌, subst, Bool, true, false, number_eq, Option,
  none, some, List, [], ◌∷◌, All, length, arith, Bool-cases, inl, inr,
}
use den_kit_stash.Database.Builds.Found.{get_build_by_id-ok, Untouched-get_build}
use den_kit_stash.Model.{Build, BuildFile}
use den_kit_stash.World.{Env, World, Action, Error, failure, ok, ◌>>=◌, ◌>>◌, ◌or_fail◌, pure}
use den_kit_stash.World.Tables.{Db}
use den_kit_stash.World.Keeps.{Keeps, Keeps-pure, Keeps-raise, Keeps-bind, Keeps-or_fail}
use den_kit_stash.World.Laws.{ok-inj, bind-ok, or_fail-ok}
use den_kit_stash.World.Reads.{Untouched}
use den_kit_stash.Database.Builds.{get_build_by_id, find_build}
use den_kit_stash.Archive.Files.{find_build_file}
use den_kit_stash.Archive.Files.Ready.{ready_file, find_build_file-ok, Untouched-find_build_file}
use den_kit_stash.Archive.Collect.{
  has_warm_archive, walk_parents, check_links, collect_rebuild_chain, max_archive_chain_length,
}
use den_kit_stash.Archive.Collect.Warm.{IsWarm, Untouched-has_warm, has_warm_archive-IsWarm}

-- From the oldest build on to the one whose archive is wanted: each next build has the one before as
-- its parent, and every build before the last is the row of its id.
abbrev pub IsLinked : Db → Build → Build → List Build → Type 0
IsLinked db target build [] = build ≡ target
IsLinked db target build (next ∷ rest) =
    (next.parent_build_id ≡ some build.id)
    × (find_build db build.id ≡ some build)
    × IsLinked db target next rest

-- Where a chain begins: at a root, or behind an ancestor whose archive is warm.
abbrev pub IsBase : (e : Env) → Db → e.Objects → Build → Option Build → Type 0
IsBase e db objects first none = first.parent_build_id ≡ none
IsBase e db objects first (some base) =
    (first.parent_build_id ≡ some base.id)
    × (find_build db base.id ≡ some base)
    × IsWarm e db objects base.id

-- What the walk to the parents collects, with so many builds behind the first at most.
abbrev pub IsCollected : (e : Env) → Db → e.Objects → Build → ℕ → List Build × Option Build → Type 0
IsCollected e db objects target n (chain, base) =
    (first : Build) × (rest : List Build) × (chain ≡ first ∷ rest)
    × (length rest ≤ n)
    × IsLinked db target first rest
    × IsBase e db objects first base

-- What a round of the walk does with the parent, and with the answer whether its archive is warm.
abbrev choose :
    {e : Env} → ℕ → List Build → Build → Bool → Action e Error (List Build × Option Build)
choose n chain parent warm = elim warm [
  | true ↦ pure (chain, some parent)
  | false ↦ walk_parents n (parent ∷ chain) parent.parent_build_id
]

abbrev after : {e : Env} → ℕ → List Build → Build → Action e Error (List Build × Option Build)
after n chain parent = has_warm_archive parent.id >>= choose n chain parent

walk_parents-IsCollected :
    {e : Env} (n : ℕ) (parent : Option ℕ) (target first : Build) (rest : List Build)
    (result : List Build × Option Build) (db : Db) (objects : e.Objects) (w : World e)
    → first.parent_build_id ≡ parent
    → Untouched db objects w
    → IsLinked db target first rest
    → (walk_parents n (first ∷ rest) parent w).0 ≡ ok result
    → IsCollected e db objects target (n + length rest) result
unfolding walk_parents
walk_parents-IsCollected {e} n none target first rest result db objects w link u linked h =
    subst (IsCollected e db objects target (n + length rest)) (ok-inj h)
      (first, rest, refl, omega arith, linked, link)
walk_parents-IsCollected zero (some id) target first rest result db objects w link u linked h = cc h
walk_parents-IsCollected {e} (suc n) (some id) target first rest result db objects w link u linked
      h =
    let look : Action e Error Build = get_build_by_id id or_fail failure "parent build not found" in
    let (parent, got, h1) = bind-ok look (after n (first ∷ rest)) w result h in
    let (found, named) =
      get_build_by_id-ok id w parent (or_fail-ok (get_build_by_id id) _ w parent got) in
    let u1 = (Untouched-get_build id).at w u in
    let w1 : World e = (get_build_by_id id w).1 in
    let (warm, tested, h2) =
      bind-ok (has_warm_archive parent.id) (choose n (first ∷ rest) parent) w1 result h1 in
    let u2 = (Untouched-has_warm parent.id).at w1 u1 in
    let up : first.parent_build_id ≡ some parent.id = rw named link in
    let row : find_build db parent.id ≡ some parent =
      subst (λ d. find_build d parent.id ≡ some parent) u.tables (rw named found) in
    elim (Bool-cases warm) [
      | inl there ↦
          let is_warm = has_warm_archive-IsWarm parent.id db objects w1 u1 (tested ∙ ap ok there) in
          subst (IsCollected e db objects target (suc n + length rest)) (ok-inj (rw there at h2))
            (first, rest, refl, omega arith, linked, (up, row, is_warm))
      | inr gone ↦
          let further =
            walk_parents-IsCollected n parent.parent_build_id target parent (first ∷ rest) result db
              objects (has_warm_archive parent.id w1).1 refl u2 (up, row, linked) (rw gone at h2) in
          subst (λ k. IsCollected e db objects target k result) (omega arith) further
    ]

Untouched-choose :
    {e : Env} {db : Db} {objects : e.Objects} (n : ℕ) (chain : List Build) (parent : Build)
    (warm : Bool)
    → Keeps (Untouched {e = e} db objects) (walk_parents n (parent ∷ chain) parent.parent_build_id)
    → Keeps (Untouched {e = e} db objects) (choose n chain parent warm)
Untouched-choose n chain parent true k = Keeps-pure (chain, some parent)
Untouched-choose n chain parent false k = k

Untouched-walk_parents :
    {e : Env} {db : Db} {objects : e.Objects} (n : ℕ) (chain : List Build) (parent : Option ℕ)
    → Keeps (Untouched {e = e} db objects) (walk_parents n chain parent)
unfolding walk_parents
Untouched-walk_parents n chain none = Keeps-pure (chain, none)
Untouched-walk_parents zero chain (some id) = Keeps-raise _
Untouched-walk_parents (suc n) chain (some id) =
    Keeps-bind _ _ (Keeps-or_fail _ _ (Untouched-get_build id)) λ parent.
      Keeps-bind _ _ (Untouched-has_warm parent.id) λ warm.
        Untouched-choose n chain parent warm
          (Untouched-walk_parents n (parent ∷ chain) parent.parent_build_id)

-- The build's file of the kind is uploaded.
abbrev pub HasReady : Db → String → Build → Type 0
HasReady db kind build = (f : BuildFile) × (ready_file db build.id kind ≡ some f)

abbrev pub HasLink : Db → Build → Type 0
HasLink db build = HasReady db "patch" build × HasReady db "signature" build

-- What a round of `check_links` does behind the patch.
abbrev sign :
    {e : Env} → (String → Action e Error BuildFile) → List Build → Action e Error (Unit {0})
sign look rest = do look "signature" or_fail failure "missing signature/default"; check_links rest

check_links-HasLink :
    {e : Env} (chain : List Build) (db : Db) (objects : e.Objects) (w : World e) (a : Unit {0})
    → Untouched db objects w
    → (check_links chain w).0 ≡ ok a
    → All (HasLink db) chain
unfolding check_links
check_links-HasLink [] db objects w a u h = tt
check_links-HasLink {e} (build ∷ rest) db objects w a u h =
    let look : String → Action e Error BuildFile =
      λ kind. find_build_file build.id kind "default" in
    let (patch, got, h1) =
      bind-ok (look "patch" or_fail failure "missing patch/default") (λ _. sign look rest) w a h in
    let u1 = (Untouched-find_build_file build.id "patch" "default").at w u in
    let w1 : World e = (look "patch" w).1 in
    let (signature, got1, h2) =
      bind-ok (look "signature" or_fail failure "missing signature/default") (λ _. check_links rest)
        w1 a h1 in
    let u2 = (Untouched-find_build_file build.id "signature" "default").at w1 u1 in
    let found =
      find_build_file-ok build.id "patch" w patch (or_fail-ok (look "patch") _ w patch got) in
    let found1 =
      find_build_file-ok build.id "signature" w1 signature
        (or_fail-ok (look "signature") _ w1 signature got1) in
    (
      (
        (patch, subst (λ d. ready_file d build.id "patch" ≡ some patch) u.tables found),
        (
          signature,
          subst (λ d. ready_file d build.id "signature" ≡ some signature) u1.tables found1,
        ),
      ),
      check_links-HasLink rest db objects (look "signature" w1).1 a u2 h2,
    )

-- A chain that `collectRebuildChain` gives ends at the build that is asked for and has at most 10001
-- builds. Each next build has the one before as its parent, every build before the last is the row
-- of its id, and each has an uploaded patch and signature. It begins at a build without a parent, or
-- at one whose parent is given beside it and has an uploaded archive whose object is in the store.
pub collect_rebuild_chain-IsCollected :
    {e : Env} (build : Build) (result : List Build × Option Build) (w : World e)
    → (collect_rebuild_chain build w).0 ≡ ok result
    → IsCollected e w.db w.objects build max_archive_chain_length result
      × All (HasLink w.db) result.0
unfolding collect_rebuild_chain
collect_rebuild_chain-IsCollected {e} build result w h =
    let walk : Action e Error (List Build × Option Build) =
      walk_parents max_archive_chain_length (build ∷ []) build.parent_build_id in
    let u : Untouched w.db w.objects w = record { tables = refl; stored = refl } in
    let (found, walked, h1) = bind-ok walk (λ r. check_links r.0 >> pure r) w result h in
    let w1 : World e = (walk w).1 in
    let u1 =
      (Untouched-walk_parents max_archive_chain_length (build ∷ []) build.parent_build_id).at w u in
    let (a, checked, h2) = bind-ok (check_links found.0) (λ _. pure found) w1 result h1 in
    let collected =
      walk_parents-IsCollected max_archive_chain_length build.parent_build_id build build [] found
        w.db w.objects w refl u refl walked in
    let links = check_links-HasLink found.0 w.db w.objects w1 a u1 checked in
    subst
      (λ r. IsCollected e w.db w.objects build max_archive_chain_length r × All (HasLink w.db) r.0)
      (ok-inj h2) (collected, links)
