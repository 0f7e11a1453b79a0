-- ===== src/Names/Format/Spelling.antt =====
-- How a format may be written in a request or in an archive's metadata.
use mathlib.Core.List.{reverse-cons, reverse-append, reverse-reverse, map-append}
use den_kit_stash.Base.{
  ℕ, ◌≡◌, refl, ◌∙◌, ap, true, false, ◌&&◌, List, [], ◌∷◌, ◌++◌, arith, codes, All, leb, lower,
  to_lower, is_space, drop_while, trim_space, reverse,
}
use den_kit_stash.Names.Format.{canonical, normalize_archive_format}
use den_kit_stash.Names.Format.RoundTrip.{Format, zip, tar, tar_gz, tar_bz2, spelling}

-- The six names that the server knows.
pub data FormatName : Type 0 where
  zip_name tar_name tar_gz_name tgz_name tar_bz2_name tbz2_name : FormatName

abbrev pub letters : FormatName → List ℕ
letters zip_name = codes "zip"
letters tar_name = codes "tar"
letters tar_gz_name = codes "tar.gz"
letters tgz_name = codes "tgz"
letters tar_bz2_name = codes "tar.bz2"
letters tbz2_name = codes "tbz2"

abbrev pub meaning : FormatName → Format
meaning zip_name = zip
meaning tar_name = tar
meaning tar_gz_name = tar_gz
meaning tgz_name = tar_gz
meaning tar_bz2_name = tar_bz2
meaning tbz2_name = tar_bz2

canonical-letters : (n : FormatName) → canonical (letters n) ≡ spelling (meaning n)
canonical-letters zip_name = refl
canonical-letters tar_name = refl
canonical-letters tar_gz_name = refl
canonical-letters tgz_name = refl
canonical-letters tar_bz2_name = refl
canonical-letters tbz2_name = refl

-- A character whose lower case is a letter or the digit 2 is no space.
letter_is_no_space :
    (c x : ℕ) → lower c ≡ x → (leb b'2' x && leb x b'z') ≡ true → is_space c ≡ false
letter_is_no_space c x h k = ground arith

-- A text that begins with such a character keeps it.
drop_while-letter :
    (s : List ℕ) (x : ℕ) (xs : List ℕ)
    → to_lower s ≡ x ∷ xs
    → (leb b'2' x && leb x b'z') ≡ true
    → drop_while is_space s ≡ s
drop_while-letter [] x xs h k = absurd (cc h)
drop_while-letter (c ∷ s) x xs h k =
    let same : lower c ≡ x = cc h in rw (letter_is_no_space c x same k)

drop_while-spaces :
    (before s : List ℕ)
    → All (λ c. is_space c ≡ true) before
    → drop_while is_space (before ++ s) ≡ drop_while is_space s
drop_while-spaces [] s h = refl
drop_while-spaces (c ∷ before) s (h, hs) = rw h (drop_while-spaces before s hs)

spaces-append :
    (xs ys : List ℕ)
    → All (λ c. is_space c ≡ true) xs
    → All (λ c. is_space c ≡ true) ys
    → All (λ c. is_space c ≡ true) (xs ++ ys)
spaces-append [] ys h k = k
spaces-append (x ∷ xs) ys (h, hs) k = (h, spaces-append xs ys hs k)

spaces-reverse :
    (xs : List ℕ) → All (λ c. is_space c ≡ true) xs → All (λ c. is_space c ≡ true) (reverse xs)
spaces-reverse [] h = tt
spaces-reverse (x ∷ xs) (h, hs) =
    rw reverse-cons (spaces-append (reverse xs) (x ∷ []) (spaces-reverse xs hs) (h, tt))

to_lower-reverse : (s : List ℕ) → to_lower (reverse s) ≡ reverse (to_lower s)
to_lower-reverse [] = refl
to_lower-reverse (c ∷ s) = simp (reverse-cons, map-append, to_lower-reverse s)

-- The first and the last character of a name.
ends :
    (n : FormatName)
    → (x : ℕ) × (xs : List ℕ) × (y : ℕ) × (ys : List ℕ) × (letters n ≡ x ∷ xs)
      × (reverse (letters n) ≡ y ∷ ys)
      × ((leb b'2' x && leb x b'z') ≡ true)
      × ((leb b'2' y && leb y b'z') ≡ true)
ends zip_name = (_, _, _, _, refl, refl, refl, refl)
ends tar_name = (_, _, _, _, refl, refl, refl, refl)
ends tar_gz_name = (_, _, _, _, refl, refl, refl, refl)
ends tgz_name = (_, _, _, _, refl, refl, refl, refl)
ends tar_bz2_name = (_, _, _, _, refl, refl, refl, refl)
ends tbz2_name = (_, _, _, _, refl, refl, refl, refl)

trim_space-name :
    (n : FormatName) (before text after : List ℕ)
    → All (λ c. is_space c ≡ true) before
    → All (λ c. is_space c ≡ true) after
    → to_lower text ≡ letters n
    → trim_space (before ++ (text ++ after)) ≡ text
trim_space-name n before text after h k same =
    let (x, xs, y, ys, first, last, x_ok, y_ok) = ends n in
    let front : drop_while is_space (before ++ (text ++ after)) ≡ text ++ after =
      drop_while-spaces before (text ++ after) h
      ∙ drop_while-letter (text ++ after) x (xs ++ to_lower after)
          (map-append lower text after ∙ ap (λ t. t ++ to_lower after) (same ∙ first)) x_ok in
    let back : drop_while is_space (reverse text) ≡ reverse text =
      drop_while-letter (reverse text) y ys (to_lower-reverse text ∙ ap reverse same ∙ last) y_ok in
    ap (λ t. reverse (drop_while is_space (reverse t))) front
    ∙ ap (λ t. reverse (drop_while is_space t)) (reverse-append text after)
    ∙ ap reverse (drop_while-spaces (reverse after) (reverse text) (spaces-reverse after k) ∙ back)
    ∙ reverse-reverse text

-- A name of a format, in upper or lower case or mixed, with any white space before and behind it,
-- becomes the spelling of the format that it stands for.
pub normalize_archive_format-spelling :
    (n : FormatName) (before text after : List ℕ)
    → All (λ c. is_space c ≡ true) before
    → All (λ c. is_space c ≡ true) after
    → to_lower text ≡ letters n
    → normalize_archive_format (before ++ (text ++ after)) ≡ spelling (meaning n)
unfolding normalize_archive_format
normalize_archive_format-spelling n before text after h k same =
    ap (λ t. canonical (to_lower t)) (trim_space-name n before text after h k same)
    ∙ ap canonical same
    ∙ canonical-letters n
