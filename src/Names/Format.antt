-- ===== src/Names/Format.antt =====
-- The archive formats of handlers/wharf_archive.go.
pub mod RoundTrip
pub mod Spelling
use den_kit_stash.Base.{
  ℕ, Bool, List, [], ◌∷◌, ◌++◌, ◌-◌, codes, equal, ends_with, to_lower, trim_space, base, extension,
  take, length, if◌then◌else◌,
}

-- The `switch` of `normalizeArchiveFormat`.
abbrev pub canonical : List ℕ → List ℕ
canonical f =
    if equal f (codes "zip")
    then codes "zip"
    else if equal f (codes "tar")
    then codes "tar"
    else if equal f (codes "tar.gz")
    then codes "tar.gz"
    else if equal f (codes "tgz")
    then codes "tar.gz"
    else if equal f (codes "tar.bz2")
    then codes "tar.bz2"
    else if equal f (codes "tbz2")
    then codes "tar.bz2"
    else codes "zip"

-- normalizeArchiveFormat
unfoldable pub normalize_archive_format : List ℕ → List ℕ
normalize_archive_format format = canonical (to_lower (trim_space format))

-- The `switch` of `archiveFormatFromPath`, over the lower-case base name.
abbrev pub format_of_name : List ℕ → List ℕ
format_of_name name =
    if ends_with name (codes ".tar.gz")
    then codes "tar.gz"
    else if ends_with name (codes ".tgz")
    then codes "tar.gz"
    else if ends_with name (codes ".tar.bz2")
    then codes "tar.bz2"
    else if ends_with name (codes ".tbz2")
    then codes "tar.bz2"
    else if ends_with name (codes ".tar")
    then codes "tar"
    else extension name

-- archiveFormatFromPath
unfoldable pub archive_format_from_path : List ℕ → List ℕ
archive_format_from_path path = format_of_name (to_lower (base path))

-- optimizedArchiveFilename
unfoldable pub optimized_archive_filename : List ℕ → List ℕ → List ℕ
unfolding normalize_archive_format
optimized_archive_filename original_filename archive_format =
    let name = base original_filename in
    let format = normalize_archive_format archive_format in
    let suffix = b'.' ∷ format in
    if ends_with (to_lower name) suffix
    then take (length name - length suffix) name ++ (codes ".optimized." ++ format)
    else codes "archive.optimized." ++ format

-- contentTypeForArchiveFormat
unfoldable pub content_type_for_archive_format : List ℕ → List ℕ
unfolding normalize_archive_format
content_type_for_archive_format format =
    let f = normalize_archive_format format in
    if equal f (codes "zip")
    then codes "application/zip"
    else if equal f (codes "tar")
    then codes "application/x-tar"
    else if equal f (codes "tar.gz")
    then codes "application/gzip"
    else if equal f (codes "tar.bz2")
    then codes "application/x-bzip2"
    else codes "application/octet-stream"
