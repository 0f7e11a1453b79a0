-- ===== src/Build/State/Open.antt =====
-- What `checkAndUpdateBuildState` may leave of the rows of builds.
use den_kit_stash.Base.{
  ℕ, ◌≡◌, ◌⊎◌, refl, inl, inr, Bool, false, not, ◌&&◌, ◌==◌, number_eq, List, [], ◌∷◌, any, select,
  arith, Bool-cases,
}
use den_kit_stash.Model.{Build, BuildFile, is_completed, is_failed}
use den_kit_stash.World.{Env, World}
use den_kit_stash.World.Tables.{Db, modify_rows}
use den_kit_stash.Build.State.Completion.{HasFile}

-- No row of the build is completed, and the rows of other builds are as they were.
pub record IsOpenStill {e : Env} (id : ℕ) (rows : List Build) (w : World e) : Type 0 where
  pub not_completed : any (λ b. b.id == id && is_completed b.state) w.db.builds.rows ≡ false
  pub others : select (λ b. not (b.id == id)) w.db.builds.rows ≡ select (λ b. not (b.id == id)) rows

-- The files of the build in the tables.
abbrev pub files_of : Db → ℕ → List BuildFile
files_of db id = select (λ f. f.build_id == id) db.build_files.rows

-- None of the build's files has failed, and its patch, its signature and its archive are uploaded and
-- not empty.
abbrev pub HasAllFiles : Db → ℕ → Type 0
HasAllFiles db id =
    (any (λ f. is_failed f.state) (files_of db id) ≡ false)
    × HasFile "patch" (files_of db id)
    × HasFile "signature" (files_of db id)
    × HasFile "archive" (files_of db id)

-- The build may be completed now, for it has its files; those of others are as they were.
pub record MayBeCompleted {e : Env} (id : ℕ) (rows : List Build) (w : World e) : Type 0 where
  pub files : HasAllFiles w.db id
  pub others : select (λ b. not (b.id == id)) w.db.builds.rows ≡ select (λ b. not (b.id == id)) rows

-- A build is completed only where it may be.
abbrev pub IsCompletedWell : {e : Env} → ℕ → List Build → World e → Type 0
IsCompletedWell id rows w = IsOpenStill id rows w ⊎ MayBeCompleted id rows w

pub others-modify :
    (id : ℕ) (p : Build → Bool) (g : Build → Build) (rows : List Build)
    → ((b : Build) → (b.id == id) ≡ false → p b ≡ false)
    → ((b : Build) → (g b).id ≡ b.id)
    → select (λ b. not (b.id == id)) (modify_rows p g rows) ≡ select (λ b. not (b.id == id)) rows
others-modify id p g [] h k = refl
others-modify id p g (b ∷ bs) h k = elim (Bool-cases (b.id == id)) [
  | inr other ↦ rw (h b other, other, others-modify id p g bs h k)
  | inl same ↦ elim (Bool-cases (p b)) [
    | inl hit ↦ rw (hit, k b, same) (others-modify id p g bs h k)
    | inr miss ↦ rw (miss, same) (others-modify id p g bs h k)
  ]
]

pub open-modify :
    (id : ℕ) (p : Build → Bool) (g : Build → Build) (rows : List Build)
    → ((b : Build) → is_completed (g b).state ≡ false)
    → any (λ b. b.id == id && is_completed b.state) rows ≡ false
    → any (λ b. b.id == id && is_completed b.state) (modify_rows p g rows) ≡ false
open-modify id p g [] h k = refl
open-modify id p g (b ∷ bs) h k = ground (arith, h b, open-modify id p g bs h)
