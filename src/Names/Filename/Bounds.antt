-- ===== src/Names/Filename/Bounds.antt =====
-- Which characters a sanitized name has, and how many.
use mathlib.Core.List.{reverse-cons, reverse-append, reverse-reverse}
use den_kit_stash.Base.{
  ℕ, ◌+◌, ◌≤◌, ◌<◌, ◌≡◌, refl, ◌⊎◌, inl, inr, Bool, true, false, not, List, [], ◌∷◌, ◌++◌, ap, sym,
  reverse, arith, length, length-append, All, Bool-cases, subst, if◌then◌else◌,
}
use den_kit_stash.Names.Filename.{
  is_plain, is_punctuation, max_length, write, scan, trim_left, trim, sanitize_filename_part,
}

-- A character that survives: one that is kept, or the dash that stands for a run of others.
abbrev pub IsSafe : ℕ → Type 0
IsSafe c = (is_plain c ≡ true) ⊎ (c ≡ b'-')

pub All-append {ℓ κ} :
    {A : Type ℓ} (P : A → Type κ) (xs ys : List A) → All P xs → All P ys → All P (xs ++ ys)
All-append P [] ys h k = k
All-append P (x ∷ xs) ys h k = (h.0, All-append P xs ys h.1 k)

All-reverse {ℓ κ} : {A : Type ℓ} (P : A → Type κ) (xs : List A) → All P xs → All P (reverse xs)
All-reverse P [] h = tt
All-reverse P (x ∷ xs) h =
    subst (All P) (sym (reverse-cons x xs))
      (All-append P (reverse xs) (x ∷ []) (All-reverse P xs h.1) (h.0, tt))

write-All :
    (d : Bool) (b : List ℕ) (c : ℕ) → is_plain c ≡ true → All IsSafe b → All IsSafe (write d b c)
unfolding write
write-All d b c h k = ground (
  arith,
  All-append IsSafe b (c ∷ []) k (inl h, tt),
  All-append IsSafe b (b'-' ∷ c ∷ []) k (inr refl, (inl h, tt)),
)

step-All :
    (d : Bool) (b : List ℕ) (c : ℕ)
    → All IsSafe b
    → All IsSafe (if is_plain c then write d b c else b)
step-All d b c k = elim (Bool-cases (is_plain c)) [
  | inl h ↦ rw h (write-All d b c h k)
  | inr h ↦ rw h k
]

scan-All : (d : Bool) (b cs : List ℕ) → All IsSafe b → All IsSafe (scan d b cs)
unfolding scan
scan-All d b [] k = k
scan-All d b (c ∷ cs) k = ground (
  arith,
  step-All d b c k,
  scan-All (not (is_plain c)) (if is_plain c then write d b c else b) cs (step-All d b c k),
)

trim_left-All : (cs : List ℕ) → All IsSafe cs → All IsSafe (trim_left cs)
unfolding trim_left
trim_left-All [] h = tt
trim_left-All (c ∷ cs) h = ground (arith, trim_left-All cs h.1)

length-write : (d : Bool) (b : List ℕ) (c : ℕ) → length (write d b c) ≤ length b + 2
unfolding write
length-write d b c = ground (arith, length-append b (c ∷ []), length-append b (b'-' ∷ c ∷ []))

-- The builder passes the limit by one at most: a dash and a character are written together.
length-scan :
    (d : Bool) (b cs : List ℕ) → length b < max_length → length (scan d b cs) ≤ max_length + 1
unfolding scan
length-scan d b [] h = omega arith
length-scan d b (c ∷ cs) h = ground (
  arith,
  length-write d b c,
  length-scan (not (is_plain c)) (if is_plain c then write d b c else b) cs,
)

length-trim_left : (cs : List ℕ) → length (trim_left cs) ≤ length cs
unfolding trim_left
length-trim_left [] = omega arith
length-trim_left (c ∷ cs) = ground (arith, length-trim_left cs)

length-reverse : (cs : List ℕ) → length (reverse cs) ≡ length cs
length-reverse [] = refl
length-reverse (c ∷ cs) =
    omega
      (arith, ap length (reverse-cons c cs), length-append (reverse cs) (c ∷ []), length-reverse cs)

length-trim : (cs : List ℕ) → length (trim cs) ≤ length cs
unfolding trim
length-trim cs = omega (
  arith,
  length-reverse (trim_left (reverse (trim_left cs))),
  length-trim_left (reverse (trim_left cs)),
  length-reverse (trim_left cs),
  length-trim_left cs,
)

-- A text that begins with none of the characters of the cut set.
abbrev pub StartsClean : List ℕ → Type 0
StartsClean [] = Unit
StartsClean (c ∷ cs) = is_punctuation c ≡ false

trim_left-StartsClean : (cs : List ℕ) → StartsClean (trim_left cs)
unfolding trim_left
trim_left-StartsClean [] = tt
trim_left-StartsClean (c ∷ cs) = elim (Bool-cases (is_punctuation c)) [
  | inl e ↦ rw e (trim_left-StartsClean cs)
  | inr e ↦ rw e e
]

-- A last character that is not cut stays last.
trim_left-append :
    (cs : List ℕ) (c : ℕ)
    → is_punctuation c ≡ false
    → (s : List ℕ) × (trim_left (cs ++ c ∷ []) ≡ s ++ c ∷ [])
unfolding trim_left
trim_left-append [] c h = ([], rw h)
trim_left-append (x ∷ cs) c h = elim (Bool-cases (is_punctuation x)) [
  | inl e ↦ rw e (trim_left-append cs c h)
  | inr e ↦ (x ∷ cs, rw e)
]

reverse-trim-StartsClean :
    (cs : List ℕ) → StartsClean cs → StartsClean (reverse (trim_left (reverse cs)))
unfolding trim_left
reverse-trim-StartsClean [] h = tt
reverse-trim-StartsClean (c ∷ cs) h =
    let (s, e) = trim_left-append (reverse cs) c h in
    rw (reverse-cons c cs, e, reverse-append s (c ∷ [])) h

trim-StartsClean : (cs : List ℕ) → StartsClean (trim cs) × StartsClean (reverse (trim cs))
unfolding trim
trim-StartsClean cs = (
  reverse-trim-StartsClean (trim_left cs) (trim_left-StartsClean cs),
  rw reverse-reverse (trim_left-StartsClean (reverse (trim_left cs))),
)

-- Whatever the text, the sanitized name has only letters, digits, dots, underscores and dashes, at
-- most 81 of them, and neither begins nor ends with a dash, a dot or an underscore.
pub sanitize_filename_part-IsSafe :
    (value : List ℕ)
    → All IsSafe (sanitize_filename_part value)
      × (length (sanitize_filename_part value) ≤ 81)
      × StartsClean (sanitize_filename_part value)
      × StartsClean (reverse (sanitize_filename_part value))
unfolding sanitize_filename_part trim
sanitize_filename_part-IsSafe value =
    let built = scan false [] value in
    (
      All-reverse IsSafe _ (
          trim_left-All _
            (All-reverse IsSafe _ (trim_left-All built (scan-All false [] value tt)))),
      omega (arith, length-trim built, length-scan false [] value (omega arith)),
      (trim-StartsClean built).0,
      (trim-StartsClean built).1,
    )
