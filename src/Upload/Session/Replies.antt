-- ===== src/Upload/Session/Replies.antt =====
-- What a chunk, and the last request of an upload session, leave on every outcome.
use den_kit_stash.Base.{
  ℕ, ◌+◌, ◌^◌, ◌<◌, ◌≡◌, sym, subst, false, not, Option, none, some, List, ◌++◌, take, length,
  length-append, ◌==◌, ◌||◌, codes_eq, number_eq, arith, eq_of_true, not-false, Bool-cases, inl,
  inr,
}
use den_kit_stash.Model.{UploadSession}
use den_kit_stash.World.{Env, World}
use den_kit_stash.World.Outcomes.{Post, Leaves, Leaves-bind, Leaves-weaken}
use den_kit_stash.Http.{Response}
use den_kit_stash.Upload.Range.{lt64, add64, sub64}
use den_kit_stash.Upload.Session.{
  is_done, limit_reader, stage_chunk, finish_chunk, put_empty_final, put_chunk, check_total,
}
use den_kit_stash.Upload.Session.Transfer.{
  receiving, finished, finish, IsStaged, Represents, Reached, append-empty,
}
use den_kit_stash.Upload.Session.Held.{Holds, Begins, IsProblem, Holds-Begins, take-whole}
use den_kit_stash.Upload.Session.Chunk.{stage_chunk-Leaves}
use den_kit_stash.Upload.Session.Commit.{Ready}
use den_kit_stash.Upload.Session.Answers.{
  Leaves-refuse, Leaves-refuse_last, problem-Answered, resume-Answered, committed,
  finish_chunk-Answered,
}

-- A number that a chunk's range gives is an int64, and so is the end of the chunk plus one.
sum64 :
    (start end : ℕ)
    → start < 2 ^ 63
    → end < 2 ^ 63
    → lt64 end start ≡ false
    → add64 start (add64 (sub64 end start) 1) ≡ start + add64 (sub64 end start) 1
sum64 start end a b h = ground arith

limit_reader-take : (body : List ℕ) (size : ℕ) → (n : ℕ) × (limit_reader body size ≡ take n body)
limit_reader-take body size = elim (Bool-cases (lt64 size 0)) [
  | inl negative ↦ (0, rw negative)
  | inr counts ↦ (size, rw counts)
]

module _ {e : Env} (session : UploadSession) (bytes body : List ℕ)
    (sized : session.size ≡ length bytes) (going : is_done session.state ≡ false) where
  abbrev pub Replies : Response (Unit {0}) → World e → Type 0
  Replies x w = Reached session.id session.storage_path body (receiving bytes) x w

  check_total-Replies :
      (limit start size : ℕ) (total : Option ℕ)
      → Leaves {e = e}
          (Begins session bytes)
          (check_total limit start size total)
          (λ u w. Begins session bytes w)
          Replies
  check_total-Replies limit start size none = record { at = λ w p. p }
  check_total-Replies limit start size (some total) =
      Leaves-refuse (lt64 limit total) _ _
        (λ t w p.
          problem-Answered session bytes body sized going 413 "upload session exceeds maximum size"
            w p)
        λ t. Leaves-refuse_last (not (add64 start size == total)) _ (λ u w p.
          problem-Answered session bytes body sized going 400 "final upload size mismatch" w p)

  staged_chunk :
      (size : ℕ)
      → Leaves {e = e}
          (Begins session bytes)
          (stage_chunk session size body)
          (λ u w.
            Holds session (bytes ++ limit_reader body size) w
            × (length (limit_reader body size) ≡ size))
          Replies
  staged_chunk size =
      Leaves-weaken {e = e} _ (λ w p. p) (λ u w h. h) failed
        (stage_chunk-Leaves session bytes body size sized)
    where
      failed :
          (x : Response (Unit {0})) (w : World e)
          → Begins session bytes w × IsProblem x
          → Replies x w
      failed x w (p, (n, message, same)) =
          subst (λ y. Replies y w) (sym same)
            (problem-Answered session bytes body sized going n message w p)

  finished_chunk :
      (size : ℕ) (total : Option ℕ)
      → add64 session.size size ≡ session.size + size
      → Leaves {e = e}
          (λ w.
            Holds session (bytes ++ limit_reader body size) w
            × (length (limit_reader body size) ≡ size))
          (finish_chunk (record session { size = add64 session.size size }) total)
          Replies
          Replies
  finished_chunk size total sum = record { at = λ w p. go (limit_reader-take body size) w p.0 p.1 }
    where
      go :
          ((n : ℕ) × (limit_reader body size ≡ take n body))
          → (w : World e) → Holds session (bytes ++ limit_reader body size) w
          → length (limit_reader body size) ≡ size
          → let r = finish_chunk (record session { size = add64 session.size size }) total w in
            Post Replies Replies r.0 r.1
      go (n, chunk) w (row, file) counted =
          let whole : add64 session.size size ≡ length (bytes ++ take n body) =
            rw (sum, length-append, sized, ← chunk, counted) in
          let front : IsStaged session.id (bytes ++ take n body) w =
            rw (file, chunk) (take-whole (bytes ++ take n body)) in
          (finish_chunk-Answered session bytes body sized going n (add64 session.size size) whole
              total).at
            w (row, (Holds-Begins session bytes (limit_reader body size) w (row, file)).1, front)

  pub put_chunk-Replies :
      (limit start end : ℕ) (total : Option ℕ)
      → start < 2 ^ 63
      → end < 2 ^ 63
      → Leaves {e = e}
          (Begins session bytes)
          (put_chunk limit session start end total body)
          Replies
          Replies
  unfolding put_chunk
  put_chunk-Replies limit start end total a b =
      Leaves-refuse (not (start == session.size)) _ _
        (λ t w p. resume-Answered session bytes body sized going w p)
        λ here.
          Leaves-refuse (lt64 end start) _ _
            (λ t w p.
              problem-Answered session bytes body sized going 400 "invalid content range" w p)
            λ ordered.
              Leaves-refuse (lt64 limit (add64 session.size size)) _ _
                (λ t w p.
                  problem-Answered session bytes body sized going 413
                    "upload session exceeds maximum size" w p)
                λ _.
                  Leaves-bind (λ u w. Begins session bytes w) _ _ _
                    (check_total-Replies limit start size total)
                    λ _.
                      Leaves-bind
                        (λ u w.
                          Holds session (bytes ++ limit_reader body size) w
                          × (length (limit_reader body size) ≡ size))
                        _ _ _ (staged_chunk size)
                        λ _. finished_chunk size total (sum (eq_of_not here) ordered)
    where
      size : ℕ
      size = add64 (sub64 end start) 1

      eq_of_not : not (start == session.size) ≡ false → start ≡ session.size
      eq_of_not h = eq_of_true start session.size (not-false (start == session.size) h)

      sum :
          start ≡ session.size
          → lt64 end start ≡ false
          → add64 session.size size ≡ session.size + size
      sum here ordered = subst (λ n. add64 n size ≡ n + size) here (sum64 start end a b ordered)

  pub put_empty_final-Replies :
      (limit start total : ℕ)
      → Leaves {e = e}
          (Begins session bytes)
          (put_empty_final limit session start total)
          Replies
          Replies
  unfolding put_empty_final
  put_empty_final-Replies limit start total =
      Leaves-refuse (lt64 limit total) _ _
        (λ t w p.
          problem-Answered session bytes body sized going 413 "upload session exceeds maximum size"
            w p)
        λ _.
          Leaves-refuse (not (start == session.size) || not (total == session.size)) _ _
            (λ t w p. resume-Answered session bytes body sized going w p)
            λ _.
              Leaves-bind
                (λ u w.
                  Represents session.id session.storage_path (finished (bytes ++ take 0 body)) w)
                _ _ _
                (Leaves-weaken {e = e} _ ready (λ u w h. h) (λ x w h. h)
                  (committed session bytes body sized going 0 session.size whole))
                λ u. record { at = λ w h. (finished (bytes ++ take 0 body), finish 0 bytes, h, tt) }
    where
      whole : session.size ≡ length (bytes ++ take 0 body)
      whole = rw append-empty sized

      ready : (w : World e) → Begins session bytes w → Ready session bytes (bytes ++ take 0 body) w
      ready w (row, front) = (row, front, rw append-empty front)
