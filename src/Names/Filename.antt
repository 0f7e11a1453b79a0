-- ===== src/Names/Filename.antt =====
-- `sanitizeFilenamePart` of handlers/wharf_downloads.go.
pub mod Bounds
use den_kit_stash.Base.{
  ℕ, suc, ◌+◌, Bool, true, false, not, ◌&&◌, ◌||◌, List, [], ◌∷◌, ◌++◌, ◌==◌, number_eq, leb, ltb,
  length, reverse, if◌then◌else◌,
}

-- The characters that are kept.
unfoldable pub is_plain : ℕ → Bool
is_plain c =
    (leb b'a' c && leb c b'z')
    || (leb b'A' c && leb c b'Z')
    || (leb b'0' c && leb c b'9')
    || c == b'.'
    || c == b'_'

-- The cut set of `strings.Trim`.
unfoldable pub is_punctuation : ℕ → Bool
is_punctuation c = c == b'-' || c == b'.' || c == b'_'

abbrev pub max_length : ℕ
max_length = 80

-- What one kept character adds to the builder.
unfoldable pub write : Bool → List ℕ → ℕ → List ℕ
write pending_dash builder c =
    if pending_dash && ltb 0 (length builder) then builder ++ b'-' ∷ c ∷ [] else builder ++ c ∷ []

-- The loop over the characters, with its `break` once the builder is full.
unfoldable pub scan : Bool → List ℕ → List ℕ → List ℕ
unfolding is_plain write
scan pending_dash builder [] = builder
scan pending_dash builder (c ∷ cs) =
    let builder' = if is_plain c then write pending_dash builder c else builder in
    let rest = scan (not (is_plain c)) builder' cs in
    if leb max_length (length builder') then builder' else rest

unfoldable pub trim_left : List ℕ → List ℕ
unfolding is_punctuation
trim_left [] = []
trim_left (c ∷ cs) = let rest = trim_left cs in if is_punctuation c then rest else c ∷ cs

-- `strings.Trim(s, "-._")`
unfoldable pub trim : List ℕ → List ℕ
unfolding trim_left
trim cs = reverse (trim_left (reverse (trim_left cs)))

unfoldable pub sanitize_filename_part : List ℕ → List ℕ
unfolding scan trim
sanitize_filename_part value = trim (scan false [] value)
