-- ===== src/Names/Format/RoundTrip.antt =====
-- The formats survive storage: what `compressAndUploadArchive` writes into a path is read back.
use mathlib.Core.List.{reverse-append, append_assoc, map-append}
use den_kit_stash.Base.{
  ℕ, ◌≡◌, refl, false, List, ◌∷◌, ◌++◌, ap, arith, codes, contains, contains-append,
  after_last-append, base_of, reverse, sym, ◌∙◌, to_lower, base, is_slash, is_dot,
}
use den_kit_stash.Names.Format.{format_of_name, archive_format_from_path}

-- The four formats that an archive is packed in.
pub data Format : Type 0 where
  zip tar tar_gz tar_bz2 : Format

abbrev pub spelling : Format → List ℕ
spelling zip = codes "zip"
spelling tar = codes "tar"
spelling tar_gz = codes "tar.gz"
spelling tar_bz2 = codes "tar.bz2"

reads_back : (stem : List ℕ) (k : Format) → format_of_name (stem ++ b'.' ∷ spelling k) ≡ spelling k
reads_back stem zip =
    simp reverse-append (rw (contains-append is_dot stem (b'.' ∷ codes "zip")) (ground arith))
reads_back stem tar = simp reverse-append
reads_back stem tar_gz = simp reverse-append
reads_back stem tar_bz2 = simp reverse-append

lower-spelling :
    (stem : List ℕ) (k : Format)
    → to_lower (stem ++ b'.' ∷ spelling k) ≡ to_lower stem ++ b'.' ∷ spelling k
lower-spelling stem zip = rw map-append
lower-spelling stem tar = rw map-append
lower-spelling stem tar_gz = rw map-append
lower-spelling stem tar_bz2 = rw map-append

-- A path that ends in a format does not end in a slash.
ends :
    (s : List ℕ) (k : Format)
    → (x : ℕ) × (r : List ℕ) × (reverse (s ++ b'.' ∷ spelling k) ≡ x ∷ r) × (is_slash x ≡ false)
ends s zip = (b'p', _, reverse-append s _, refl)
ends s tar = (b'r', _, reverse-append s _, refl)
ends s tar_gz = (b'z', _, reverse-append s _, refl)
ends s tar_bz2 = (b'2', _, reverse-append s _, refl)

spelling_has_no_slash : (k : Format) → contains is_slash (spelling k) ≡ false
spelling_has_no_slash zip = refl
spelling_has_no_slash tar = refl
spelling_has_no_slash tar_gz = refl
spelling_has_no_slash tar_bz2 = refl

base-append :
    (dir stem : List ℕ) (k : Format)
    → contains is_slash stem ≡ false
    → base (dir ++ b'/' ∷ (stem ++ b'.' ∷ spelling k)) ≡ stem ++ b'.' ∷ spelling k
base-append dir stem k h =
    let whole : List ℕ = dir ++ b'/' ∷ stem in
    let (x, r, e, no_slash) = ends whole k in
    let joined = append_assoc dir (b'/' ∷ stem) (b'.' ∷ spelling k) in
    base_of (dir ++ b'/' ∷ (stem ++ b'.' ∷ spelling k)) x r (ap reverse (sym joined) ∙ e) no_slash
    ∙ after_last-append is_slash dir b'/' (stem ++ b'.' ∷ spelling k)
        (contains-append is_slash stem (b'.' ∷ spelling k)
          ∙ ground (arith, spelling_has_no_slash k))
        refl

-- An archive stored under a path whose last component is a stem with no slash, a dot and the format
-- is read back in that format.
pub archive_format_from_path-spelling :
    (dir stem : List ℕ) (k : Format)
    → contains is_slash stem ≡ false
    → archive_format_from_path (dir ++ b'/' ∷ (stem ++ b'.' ∷ spelling k)) ≡ spelling k
unfolding archive_format_from_path
archive_format_from_path-spelling dir stem k h =
    ap (λ t. format_of_name (to_lower t)) (base-append dir stem k h)
    ∙ ap format_of_name (lower-spelling stem k)
    ∙ reads_back (to_lower stem) k
