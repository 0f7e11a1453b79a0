-- ===== src/Download/Filename/Safe.antt =====
-- What a title and a version can put into the name of a download.
use den_kit_stash.Base.{
  ℕ, zero, suc, ◌+◌, ◌<◌, ◌%◌, ◌/◌, ◌≡◌, refl, ◌⊎◌, inl, inr, Text, Bool, true, false, [], ◌∷◌,
  ◌++◌, arith, All, codes, digits, Option, some, none,
}
use den_kit_stash.Model.{Build, Upload, BuildFile}
use den_kit_stash.World.{Env, World, ok, to_option}
use den_kit_stash.Http.{Handler}
use den_kit_stash.Database.Projects.{get_upload_by_id, get_game_by_id}
use den_kit_stash.Database.Builds.{get_build_by_id}
use den_kit_stash.Archive.Files.{has_kind}
use den_kit_stash.Names.Filename.{is_plain, is_punctuation, sanitize_filename_part}
use den_kit_stash.Names.Filename.Bounds.{
  IsSafe, StartsClean, All-append, sanitize_filename_part-IsSafe,
}
use den_kit_stash.Names.Format.{archive_format_from_path}
use den_kit_stash.Download.Filename.{
  or_default, with_format, download_stem, download_filename, compose_filename, named,
  game_title_for_build, upload_title, title_of, archive_name,
}

digit-IsSafe : (d : ℕ) → d < 10 → is_plain (b'0' + d) ≡ true
unfolding is_plain
digit-IsSafe d h = ground arith

digits-IsSafe : (f n : ℕ) (acc : Text) → All IsSafe acc → All IsSafe (digits f n acc)
digits-IsSafe zero n acc h = h
digits-IsSafe (suc f) n acc h =
    let kept : All IsSafe ((b'0' + n % 10) ∷ acc) =
      (inl (digit-IsSafe (n % 10) (omega arith)), h) in
    ground (arith, kept, digits-IsSafe f (n / 10) ((b'0' + n % 10) ∷ acc) kept)

or_default-IsSafe :
    (s fallback : Text) → All IsSafe s → All IsSafe fallback → All IsSafe (or_default s fallback)
or_default-IsSafe [] fallback h k = k
or_default-IsSafe (c ∷ s) fallback h k = h

or_default-StartsClean :
    (s fallback rest : Text) → StartsClean s → StartsClean (or_default s (b'a' ∷ fallback) ++ rest)
unfolding is_punctuation
or_default-StartsClean [] fallback rest h = refl
or_default-StartsClean (c ∷ s) fallback rest h = h

fallback-IsSafe : All IsSafe (codes "archive") × All IsSafe (codes "build-")
unfolding is_plain
fallback-IsSafe = (
  (inl refl, (inl refl, (inl refl, (inl refl, (inl refl, (inl refl, (inl refl, tt))))))),
  (inl refl, (inl refl, (inl refl, (inl refl, (inl refl, (inr refl, tt)))))),
)

download_stem-IsSafe :
    (title user_version : Text) (build_id : ℕ)
    → All IsSafe (download_stem title user_version build_id)
      × StartsClean (download_stem title user_version build_id)
unfolding download_stem
download_stem-IsSafe title user_version build_id =
    let (titled, short, starts, ends) = sanitize_filename_part-IsSafe title in
    (
      All-append IsSafe _ _ (or_default-IsSafe _ _ titled fallback-IsSafe.0) (
        inr refl,
        or_default-IsSafe _ _ (sanitize_filename_part-IsSafe user_version).0 (
            All-append IsSafe (codes "build-") _ fallback-IsSafe.1
              (digits-IsSafe (suc build_id) build_id [] tt)),
      ),
      or_default-StartsClean (sanitize_filename_part title) _ _ starts,
    )

-- A name for a file: none, or a part of safe characters with the format of the stored file.
abbrev pub IsDownloadName : BuildFile → Text → Type 0
IsDownloadName file name =
    (name ≡ [])
    ⊎ ((stem : Text) × (name ≡ with_format stem (archive_format_from_path file.storage_path))
        × All IsSafe stem
        × StartsClean stem)

-- The action gives a name for the file.
abbrev pub IsNamed : {e : Env} {B : Type 0} → BuildFile → Handler e B Text → World e → Type 0
IsNamed file m w = (name : Text) × ((m w).0 ≡ ok name) × IsDownloadName file name

module _ {e : Env} {B : Type 0} where
  -- A title that cannot be found is empty.
  upload_title-ok :
      (upload : Option Upload) (w : World e)
      → (title : Text) × ((upload_title {B = B} upload w).0 ≡ ok title)
  upload_title-ok none w = ([], refl)
  upload_title-ok (some upload) w = (title_of (to_option (get_game_by_id upload.game_id w).0), refl)

  game_title_for_build-ok :
      (build : Build) (w : World e)
      → (title : Text) × ((game_title_for_build {B = B} build w).0 ≡ ok title)
  unfolding game_title_for_build
  game_title_for_build-ok build w =
      let r = get_upload_by_id build.upload_id w in upload_title-ok (to_option r.0) r.1

  named-IsNamed :
      (file : BuildFile) (found : Option Build) (w : World e)
      → IsNamed {B = B} file (named file found) w
  unfolding compose_filename
  named-IsNamed file none w = ([], refl, inl refl)
  named-IsNamed file (some build) w =
      let (title, h) = game_title_for_build-ok build w in
      let (safe, starts) = download_stem-IsSafe title (codes build.user_version) build.id in
      (
        compose_filename title (codes build.user_version) build.id file.storage_path,
        rw h,
        inr (_, refl, safe, starts),
      )

  archive_name-IsNamed :
      (file : BuildFile) (is_archive : Bool) (w : World e)
      → IsNamed {B = B} file (archive_name file is_archive) w
  archive_name-IsNamed file false w = ([], refl, inl refl)
  archive_name-IsNamed file true w =
      let r = get_build_by_id file.build_id w in named-IsNamed file (to_option r.0) r.1

  -- `downloadFilename` gives a name whatever the database answers, and never fails: no name, or a
  -- part of letters, digits, dots, underscores and dashes that does not begin with a dot, a dash or
  -- an underscore, followed by the format of the stored file. The game's title and the version enter
  -- by the first part only.
  pub download_filename-IsNamed :
      (file : BuildFile) (w : World e) → IsNamed {B = B} file (download_filename file) w
  unfolding download_filename
  download_filename-IsNamed file w = archive_name-IsNamed file (has_kind "archive" "default" file) w
