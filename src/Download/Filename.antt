-- ===== src/Download/Filename.antt =====
-- The name under which a browser saves an archive: `downloadFilename` and `gameTitleForBuild` of
-- handlers/wharf_downloads.go.
pub mod Safe
use den_kit_stash.Base.{
  ℕ, Text, Bool, true, false, Option, none, some, [], ◌∷◌, ◌++◌, codes, decimal,
}
use den_kit_stash.Model.{User, Game, Upload, Build, BuildFile}
use den_kit_stash.World.{Env, ◌>>=◌, pure, attempt}
use den_kit_stash.Http.{Handler}
use den_kit_stash.Database.Projects.{get_upload_by_id, get_game_by_id}
use den_kit_stash.Database.Builds.{get_build_by_id}
use den_kit_stash.Archive.Files.{has_kind}
use den_kit_stash.Names.Filename.{sanitize_filename_part}
use den_kit_stash.Names.Format.{archive_format_from_path}

abbrev pub or_default : Text → Text → Text
or_default [] fallback = fallback
or_default (c ∷ s) fallback = c ∷ s

abbrev pub with_format : Text → Text → Text
with_format stem [] = stem
with_format stem (c ∷ format) = stem ++ b'.' ∷ c ∷ format

-- The name without its format.
unfoldable pub download_stem : Text → Text → ℕ → Text
download_stem title user_version build_id =
    or_default (sanitize_filename_part title) (codes "archive")
    ++ b'-' ∷ or_default (sanitize_filename_part user_version) (codes "build-" ++ decimal build_id)

-- How `downloadFilename` puts a name together.
unfoldable pub compose_filename : Text → Text → ℕ → Text → Text
compose_filename title user_version build_id storage_path =
    with_format (download_stem title user_version build_id) (archive_format_from_path storage_path)

abbrev pub title_of : Option (User × Game) → Text
title_of none = []
title_of (some (user, game)) = codes game.title

module _ {e : Env} {B : Type 0} where
  abbrev pub upload_title : Option Upload → Handler e B Text
  upload_title none = pure []
  upload_title (some upload) = do
    found ← attempt (get_game_by_id upload.game_id)
    pure (title_of found)

  -- gameTitleForBuild
  unfoldable pub game_title_for_build : Build → Handler e B Text
  game_title_for_build build = do
    upload ← attempt (get_upload_by_id build.upload_id)
    upload_title upload

  abbrev pub named : BuildFile → Option Build → Handler e B Text
  named file none = pure []
  named file (some build) = do
    title ← game_title_for_build build
    pure (compose_filename title (codes build.user_version) build.id file.storage_path)

  abbrev pub archive_name : BuildFile → Bool → Handler e B Text
  archive_name file false = pure []
  archive_name file true = do build ← attempt (get_build_by_id file.build_id); named file build

  -- downloadFilename
  unfoldable pub download_filename : BuildFile → Handler e B Text
  download_filename file = archive_name file (has_kind "archive" "default" file)
