-- ===== src/Upload/Range.antt =====
-- The `Content-Range` header of an upload, by the two patterns of handlers/wharf_support.go, and the
-- arithmetic of Go's int64.
pub mod Bounds
use den_kit_stash.Base.{
  ℕ, zero, suc, ◌+◌, ◌-◌, ◌*◌, ◌%◌, ◌^◌, Text, Bool, Option, none, some, [], ◌∷◌, ltb, leb, ◌&&◌,
  ◌==◌, number_eq, codes_eq, if◌then◌else◌, codes, ◌≡◌, refl,
}

-- An int64 is its bit pattern, a number below 2 ^ 64.
abbrev pub add64 : ℕ → ℕ → ℕ
add64 a b = (a + b) % 2 ^ 64

abbrev pub sub64 : ℕ → ℕ → ℕ
sub64 a b = (a + 2 ^ 64 - b) % 2 ^ 64

-- The signed order.
abbrev pub lt64 : ℕ → ℕ → Bool
lt64 a b = ltb ((a + 2 ^ 63) % 2 ^ 64) ((b + 2 ^ 63) % 2 ^ 64)

abbrev pub max_int64 : ℕ
max_int64 = 2 ^ 63 - 1

abbrev is_digit : ℕ → Bool
is_digit c = leb b'0' c && leb c b'9'

-- The digits at the front of a text as a number, and the rest; the count of digits comes first.
abbrev pub read_digits : ℕ → ℕ → Text → ℕ × ℕ × Text
read_digits count n [] = (count, n, [])
read_digits count n (c ∷ s) =
    let more = read_digits (suc count) (n * 10 + (c - b'0')) s in
    if is_digit c then more else (count, n, c ∷ s)

-- `strconv.ParseInt` of digits whose error is dropped: too large a number is the largest
abbrev pub clamp64 : ℕ → ℕ
clamp64 n = if ltb max_int64 n then max_int64 else n

abbrev pub some_digits : ℕ × ℕ × Text → Option (ℕ × Text)
some_digits (zero, n, s) = none
some_digits (suc k, n, s) = some (clamp64 n, s)

-- `\d+`
abbrev pub number : Text → Option (ℕ × Text)
number s = some_digits (read_digits 0 0 s)

-- A literal of the pattern.
abbrev pub literal : Text → Text → Option Text
literal [] s = some s
literal (x ∷ p) [] = none
literal (x ∷ p) (c ∷ s) = if x == c then literal p s else none

abbrev pub then_read {ℓ κ} : {A : Type ℓ} {B : Type κ} → Option A → (A → Option B) → Option B
then_read none f = none
then_read (some a) f = f a

abbrev at_end : {A : Type 0} → A → Text → Option A
at_end a [] = some a
at_end a (c ∷ s) = none

-- The total of a chunk: `*`, or a number at the end of the text.
abbrev pub total_of : Text → Option (Option ℕ)
total_of s =
    if s == codes "*" then some none else then_read (number s) (λ (n, rest). at_end (some n) rest)

-- The parts of a chunk's range, from the last.
abbrev pub chunk_total : ℕ → ℕ → Text → Option (ℕ × ℕ × Option ℕ)
chunk_total start end s = then_read (total_of s) λ total. some (start, end, total)

abbrev pub chunk_end : ℕ → ℕ × Text → Option (ℕ × ℕ × Option ℕ)
chunk_end start (end, s) = then_read (literal (codes "/") s) (chunk_total start end)

abbrev pub chunk_dash : ℕ × Text → Option (ℕ × ℕ × Option ℕ)
chunk_dash (start, s) =
    then_read (literal (codes "-") s) λ rest. then_read (number rest) (chunk_end start)

abbrev pub chunk_start : Text → Option (ℕ × ℕ × Option ℕ)
chunk_start s = then_read (number s) chunk_dash

-- contentRangePattern: the start, the end and the total
unfoldable pub match_chunk : Text → Option (ℕ × ℕ × Option ℕ)
match_chunk s = then_read (literal (codes "bytes ") s) chunk_start

-- emptyFinalRangePattern: the start and the total
unfoldable pub match_empty_final : Text → Option (ℕ × ℕ)
match_empty_final s = then_read (literal (codes "bytes ") s) λ s₁.
    then_read (number s₁) λ (start, s₂).
      then_read (literal (codes "--1/") s₂)
        λ s₃. then_read (number s₃) λ (total, s₄). at_end (start, total) s₄

chunk_range : match_chunk (codes "bytes 0-99/*") ≡ some (0, 99, none)
unfolding match_chunk
chunk_range = refl

final_range : match_empty_final (codes "bytes 100--1/100") ≡ some (100, 100)
unfolding match_empty_final
final_range = refl
