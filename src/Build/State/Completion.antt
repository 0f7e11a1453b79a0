-- ===== src/Build/State/Completion.antt =====
-- When `checkAndUpdateBuildState` completes a build, and who generates its archive.
use den_kit_stash.Base.{
  ℕ, suc, String, ◌⊎◌, ◌≡◌, refl, ◌<◌, Bool, true, false, ◌&&◌, not, ◌==◌, number_eq, Option, none,
  some, List, [], ◌∷◌, any, arith, if◌then◌else◌, ltb→lt, Bool-cases, Option-cases, inl, inr, sym,
  ◌∙◌, ap,
}
use den_kit_stash.Model.{BuildFile, BuildState, processing, is_failed, is_started, Build}
use den_kit_stash.World.{Env, World, ok}
use den_kit_stash.World.Tables.{Table, modify_rows}
use den_kit_stash.World.Laws.{exec-ok, ok-inj}
use den_kit_stash.Database.Builds.{claim_build_processing}
use den_kit_stash.Archive.Files.{is_ready}
use den_kit_stash.Build.State.{
  verdict, fail, generate, complete, wait, has_ready_required_file, last_ready,
}

-- Some file of the list is uploaded, of that kind, and not empty.
abbrev pub HasFile : String → List BuildFile → Type 0
HasFile kind [] = ⊥
HasFile kind (f ∷ fs) = ((is_ready kind "default" f ≡ true) × (0 < f.size)) ⊎ HasFile kind fs

last_ready-HasFile :
    (kind : String) (files : List BuildFile) (f : BuildFile)
    → last_ready kind "default" files ≡ some f
    → 0 < f.size
    → HasFile kind files
last_ready-HasFile kind [] f h pos = cc
last_ready-HasFile kind (g ∷ gs) f h pos = elim (Option-cases (last_ready kind "default" gs)) [
  | inl eq ↦ by_head (Bool-cases (is_ready kind "default" g)) (rw eq at h)
  | inr (k, eq) ↦
      let same : ◌≡◌ {A = Option BuildFile} (some k) (some f) = rw eq at h in
      inr (last_ready-HasFile kind gs f (eq ∙ same) pos)
]
  where
    by_head :
        (is_ready kind "default" g ≡ true) ⊎ (is_ready kind "default" g ≡ false)
        → (if is_ready kind "default" g then some g else none) ≡ some f
        → HasFile kind (g ∷ gs)
    by_head (inl ready) picked =
        let same : ◌≡◌ {A = Option BuildFile} (some g) (some f) = rw ready at picked in
        inl (ready, (let eq : g ≡ f = cc in rw eq pos))
    by_head (inr other) picked = absurd (let bad = rw other at picked in cc bad)

has_ready-HasFile :
    (kind : String) (files : List BuildFile)
    → has_ready_required_file kind files ≡ true
    → HasFile kind files
unfolding has_ready_required_file
has_ready-HasFile kind files h = elim (Option-cases (last_ready kind "default" files)) [
  | inl eq ↦ absurd (let bad = rw eq at h in cc bad)
  | inr (f, eq) ↦ last_ready-HasFile kind files f eq (ltb→lt 0 f.size (rw eq at h))
]

decided :
    (bad p s a started : Bool)
    → (if bad
        then fail
        else if p && s && not a && started
        then generate
        else if p && s && a
        then complete
        else wait)
      ≡ complete
    → (bad ≡ false) × (p ≡ true) × (s ≡ true) × (a ≡ true)
decided bad p s a started h = ground arith

-- `checkAndUpdateBuildState` decides to complete a build only where none of its files has failed and
-- a patch, a signature and an archive are uploaded and not empty.
pub complete_needs_files :
    (state : BuildState) (files : List BuildFile)
    → verdict state files ≡ complete
    → (any (λ f. is_failed f.state) files ≡ false)
      × HasFile "patch" files
      × HasFile "signature" files
      × HasFile "archive" files
unfolding verdict
complete_needs_files state files h =
    let (good, patch, signature, archive) = decided _ _ _ _ (is_started state) h in
    (
      good,
      has_ready-HasFile "patch" files patch,
      has_ready-HasFile "signature" files signature,
      has_ready-HasFile "archive" files archive,
    )

claimed_none :
    (id now : ℕ) (rows : List Build)
    → any
        (λ b. b.id == id && is_started b.state)
        (modify_rows
          (λ b. b.id == id && is_started b.state)
          (λ b. record b { state = processing; updated_at = now })
          rows)
      ≡ false
claimed_none id now [] = refl
claimed_none id now (b ∷ bs) = let ih = claimed_none id now bs in ground arith

-- Once a claim of a build has been answered, whatever the answer, no claim is answered with true
-- while the builds are as that claim left them, so that one caller generates the archive.
pub claim_once :
    {e : Env} (id : ℕ) (won : Bool) (w later : World e)
    → (claim_build_processing id w).0 ≡ ok won
    → later.db.builds ≡ (claim_build_processing id w).1.db.builds
    → ¬ ((claim_build_processing id later).0 ≡ ok true)
unfolding claim_build_processing
claim_once {e} id won w later h same h' =
    let (allowed, ran) = exec-ok _ _ w won h in
    let (allowed', ran') = exec-ok _ _ later true h' in
    let first : ◌≡◌ {A = Table Build} later.db.builds _ = same ∙ ap (λ r. r.1.db.builds) ran in
    let second : true ≡ any (λ b. b.id == id && is_started b.state) later.db.builds.rows =
      ok-inj (sym h' ∙ ap (λ r. r.0) ran') in
    let none_left =
      ap (λ t. any (λ b. b.id == id && is_started b.state) t.rows) first
      ∙ claimed_none id (e.now (suc w.calls)) w.db.builds.rows in
    cc (second, none_left)
