-- ===== src/Upload/Range/Bounds.antt =====
-- The numbers that a `Content-Range` gives are int64s.
use den_kit_stash.Base.{
  ℕ, zero, suc, ◌^◌, ◌<◌, ◌≡◌, refl, subst, Text, Option, none, some, codes, codes_eq, number_eq,
  arith,
}
use den_kit_stash.Upload.Range.{
  clamp64, then_read, number, some_digits, read_digits, literal, total_of, chunk_start, chunk_dash,
  chunk_end, chunk_total, match_chunk,
}

then_read-some :
    {A B : Type 0} (o : Option A) (f : A → Option B) (b : B)
    → then_read o f ≡ some b
    → (a : A) × (o ≡ some a) × (f a ≡ some b)
then_read-some none f b h = absurd (cc h)
then_read-some (some a) f b h = (a, refl, h)

clamp64_lt : (n : ℕ) → clamp64 n < 2 ^ 63
clamp64_lt n = ground arith

number_lt : (s : Text) (r : ℕ × Text) → number s ≡ some r → r.0 < 2 ^ 63
number_lt s r h = go (read_digits 0 0 s) h
  where
    go : (d : ℕ × ℕ × Text) → some_digits d ≡ some r → r.0 < 2 ^ 63
    go (zero, n, rest) h = absurd (cc h)
    go (suc k, n, rest) h =
        let same : ◌≡◌ {A = ℕ × Text} (clamp64 n, rest) r = cc h in
        subst (λ q. q.0 < 2 ^ 63) same (clamp64_lt n)

-- The numbers of a chunk's range are int64s.
pub match_chunk_lt :
    (s : Text) (start end : ℕ) (total : Option ℕ)
    → match_chunk s ≡ some (start, end, total)
    → (start < 2 ^ 63) × (end < 2 ^ 63)
unfolding match_chunk
match_chunk_lt s start end total h =
    let (s1, _, h1) = then_read-some (literal (codes "bytes ") s) chunk_start _ h in
    let ((a, s2), at, h2) = then_read-some (number s1) chunk_dash _ h1 in
    let (s3, _, h3) =
      then_read-some (literal (codes "-") s2) (λ rest. then_read (number rest) (chunk_end a)) _
        h2 in
    let ((b, s4), bt, h4) = then_read-some (number s3) (chunk_end a) _ h3 in
    let (s5, _, h5) = then_read-some (literal (codes "/") s4) (chunk_total a b) _ h4 in
    let (t, _, h6) = then_read-some (total_of s5) (λ total. some (a, b, total)) _ h5 in
    let p : a ≡ start = cc h6 in
    let q : b ≡ end = cc h6 in
    (
      subst (λ n. n < 2 ^ 63) p (number_lt s1 (a, s2) at),
      subst (λ n. n < 2 ^ 63) q (number_lt s3 (b, s4) bt),
    )
