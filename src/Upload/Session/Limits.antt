-- ===== src/Upload/Session/Limits.antt =====
-- What `PutUploadSession` does with a session that is completed, with a chunk that starts elsewhere,
-- and with a chunk over the limit.
use den_kit_stash.Base.{
  ℕ, ◌-◌, ◌^◌, ◌≤◌, ◌<◌, ◌↔◌, ◌≡◌, true, false, Option, none, List, ◌==◌, number_eq, arith, eq_refl,
}
use den_kit_stash.Model.{UploadSession}
use den_kit_stash.World.{◌>>◌, Env, World, err}
use den_kit_stash.Http.{problem}
use den_kit_stash.Upload.Range.{add64, sub64, lt64}
use den_kit_stash.Upload.Session.{put_chunk, resume_range, stage_chunk, finish_chunk}

-- A chunk that starts elsewhere than where the session ends is answered with the session's range,
-- and changes nothing at all.
put_chunk-start :
    {e : Env} (limit start end : ℕ) (session : UploadSession) (total : Option ℕ) (body : List ℕ)
    (w : World e)
    → (start == session.size) ≡ false
    → put_chunk limit session start end total body w ≡ (err (resume_range session.size), w)
unfolding put_chunk
put_chunk-start limit start end session total body w h = rw h

-- The test of the limit, on a chunk that begins where the session ends: it refuses a last byte at or
-- behind the limit, but for the largest int64, where the sum overflows.
over_limit_iff :
    (limit size end : ℕ)
    → limit < 2 ^ 63
    → size ≤ end
    → end < 2 ^ 63
    → (lt64 limit (add64 size (add64 (sub64 end size) 1)) ≡ true)
      ↔ ((limit ≤ end) × (end < 2 ^ 63 - 1))
over_limit_iff limit size end a b c = ground arith

not_reversed : (size end : ℕ) → size ≤ end → end < 2 ^ 63 → lt64 end size ≡ false
not_reversed size end a b = ground arith

last_chunk : (size : ℕ) → size < 2 ^ 63 → add64 (sub64 (2 ^ 63 - 1) size) 1 ≡ 2 ^ 63 - size
last_chunk size a = omega arith

last_sum : (size : ℕ) → size < 2 ^ 63 → add64 size (2 ^ 63 - size) ≡ 2 ^ 63
last_sum size a = omega arith

never_over : (limit : ℕ) → limit < 2 ^ 63 → lt64 limit (2 ^ 63) ≡ false
never_over limit a = ground arith

-- A chunk that goes on where the session ends, under an int64 limit, is refused with status 413 and
-- without a trace where its last byte would be at or behind the limit, unless that byte's number is
-- the largest int64.
pub put_chunk_over_limit :
    {e : Env} (limit end : ℕ) (session : UploadSession) (total : Option ℕ) (body : List ℕ)
    (w : World e)
    → limit < 2 ^ 63
    → session.size ≤ end
    → limit ≤ end
    → end < 2 ^ 63 - 1
    → put_chunk limit session session.size end total body w
      ≡ (err (problem 413 "upload session exceeds maximum size"), w)
unfolding put_chunk
put_chunk_over_limit limit end session total body w a b c d =
    let bound : end < 2 ^ 63 = omega arith in
    rw (
      eq_refl session.size,
      not_reversed session.size end b bound,
      (over_limit_iff limit session.size end a b bound).1 (c, d),
    )

-- A chunk of unknown total that goes on where a session ends that is not empty, and whose last byte
-- has the number of the largest int64, is refused by no int64 limit: it goes on to be staged, with
-- all the bytes up to that number.
pub put_chunk_overflow :
    {e : Env} (limit : ℕ) (session : UploadSession) (body : List ℕ) (w : World e)
    → limit < 2 ^ 63
    → 0 < session.size
    → session.size < 2 ^ 63
    → put_chunk limit session session.size (2 ^ 63 - 1) none body w ≡ (
        (do
          stage_chunk session (2 ^ 63 - session.size) body
          finish_chunk (record session { size = 2 ^ 63 }) none)
          w)
unfolding put_chunk
put_chunk_overflow limit session body w a b c =
    let bound : session.size ≤ 2 ^ 63 - 1 = omega arith in
    rw (
      eq_refl session.size,
      not_reversed session.size (2 ^ 63 - 1) bound (omega arith),
      last_chunk session.size c,
      last_sum session.size c,
      never_over limit a,
    )
