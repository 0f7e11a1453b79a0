-- ===== src/Archive/Rebuild/Lock.antt =====
-- The advisory lock of a build.
use den_kit_stash.Base.{ℕ, ◌+◌, ◌*◌, ◌/◌, ◌%◌, ◌^◌, ◌≡◌, ◌<◌, ◌↔◌, arith, ap, sym, ◌∙◌}
use den_kit_stash.Archive.Rebuild.{archive_lock_key, archive_lock_namespace}
use den_kit_stash.Archive.Rebuild.Bits.{or_bits, and_bits, shift, or_bits-fields, and_bits-mask}

low_half : (a : ℕ) → a < 2 ^ 64 → and_bits 64 a 0xffffffff ≡ a % 2 ^ 32
low_half a h =
    let halves : shift 32 (a / 2 ^ 32) + a % 2 ^ 32 ≡ a = omega arith in
    ap (λ n. and_bits 64 n 0xffffffff) (sym halves)
    ∙ and_bits-mask 64 32 (a / 2 ^ 32) (a % 2 ^ 32) (omega arith) (omega arith)

-- The namespace is the upper half of the key and the low half of the id its lower one.
key-halves : (a : ℕ) → a < 2 ^ 64 → archive_lock_key a ≡ 0x44454e4b * 2 ^ 32 + a % 2 ^ 32
unfolding archive_lock_key
key-halves a h =
    ap (λ n. or_bits 64 (shift 32 archive_lock_namespace) n) (low_half a h)
    ∙ or_bits-fields 64 32 archive_lock_namespace (a % 2 ^ 32) (omega arith) (omega arith)

-- The key of a build whose id is a word of 64 bits fits 63 bits, and two builds share a lock exactly
-- where the low 32 bits of their ids agree.
pub archive_lock_key_shared :
    (a b : ℕ)
    → a < 2 ^ 64
    → b < 2 ^ 64
    → (archive_lock_key a < 2 ^ 63)
      × ((archive_lock_key a ≡ archive_lock_key b) ↔ (a % 2 ^ 32 ≡ b % 2 ^ 32))
archive_lock_key_shared a b h k = (
  omega (arith, key-halves a h),
  (
    λ same. omega (arith, key-halves a h, key-halves b k),
    λ same. omega (arith, key-halves a h, key-halves b k),
  ),
)
