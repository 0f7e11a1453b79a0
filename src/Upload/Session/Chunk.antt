-- ===== src/Upload/Session/Chunk.antt =====
-- What staging a chunk leaves, on every outcome of its steps.
use den_kit_stash.Base.{
  ℕ, suc, String, ◌≡◌, refl, ◌∙◌, Text, Bool, true, false, not, some, List, ◌++◌, take, length,
  ◌==◌, codes_eq, number_eq, eq_of_true,
}
use den_kit_stash.Model.{UploadSession}
use den_kit_stash.World.{Env, World, Action, Error, Result, ok, err, ◌or_fail◌}
use den_kit_stash.World.Outcomes.{Post, Leaves, Leaves-bind, Leaves-or_fail, Leaves-call}
use den_kit_stash.Http.{Response, problem}
use den_kit_stash.Archive.Rebuild.{proceed}
use den_kit_stash.Build.Access.{refuse_if}
use den_kit_stash.Upload.Session.{
  upload_session_path, or_empty, truncated, write_file, with_file, open_staging, truncate_staging,
  copy_to, zeros, limit_reader, stage_chunk,
}
use den_kit_stash.Upload.Session.Transfer.{take-front}
use den_kit_stash.Upload.Session.Held.{
  InDb, Holds, Begins, Holds-Begins, take-whole, write_file-same, IsProblem,
}

-- The steps on the session's file. Where one fails, the file begins as it did.
module _ {e : Env} (session : UploadSession) (bytes : List ℕ) where
  Leaves-proceed :
      (P : World e → Type 0)
      → ((w : World e) → P w → P (record w { calls = suc w.calls }))
      → ((w : World e) → P w → Begins session bytes w)
      → Leaves P proceed (λ u w. P w) (λ x w. Begins session bytes w)
  unfolding proceed
  Leaves-proceed P uncounted begins =
      Leaves-call uncounted _ (λ w p. p) (λ w p. begins w p) (λ w p. begins w p)

  -- A change of the file, for what holds of the file that is written.
  Leaves-with_file :
      (P : World e → Type 0) (F : List ℕ → Type 0) (change : List ℕ → List ℕ)
      → ((w : World e) → P w → P (record w { calls = suc w.calls }))
      → ((w : World e) → P w → Begins session bytes w)
      → ((w : World e) → P w → F (change (or_empty (w.staging (upload_session_path session.id)))))
      → ((new : List ℕ) → F new → take (length bytes) new ≡ bytes)
      → Leaves P
          (with_file (upload_session_path session.id) change)
          (λ u w. (new : List ℕ) × Holds session new w × F new)
          (λ x w. Begins session bytes w)
  Leaves-with_file P F change uncounted begins written front =
      Leaves-call uncounted _
        (λ w p.
          let new = change (or_empty (w.staging path)) in
          (new, ((begins w p).0, write_file-same w.staging path new), written w p))
        begins
        λ w p.
          let new = change (or_empty (w.staging path)) in
          ((begins w p).0, rw (write_file-same w.staging path new) (front new (written w p)))
    where
      path : Text
      path = upload_session_path session.id

  -- What is known of the file that is written, as far as its beginning goes.
  Leaves-forget :
      {P : World e → Type 0} (F : List ℕ → Type 0) (m : Action e Error (Unit {0}))
      → Leaves P m
          (λ u w. (new : List ℕ) × Holds session new w × F new)
          (λ x w. Begins session bytes w)
      → ((new : List ℕ) → F new → take (length bytes) new ≡ bytes)
      → Leaves P m (λ u w. Begins session bytes w) (λ x w. Begins session bytes w)
  Leaves-forget F m k front = record { at = λ w p. go (m w).0 (m w).1 (k.at w p) }
    where
      go :
          (r : Result Error (Unit {0})) (w : World e)
          → Post
              (λ u w. (new : List ℕ) × Holds session new w × F new)
              (λ x w. Begins session bytes w)
              r
              w
          → Post (λ u w. Begins session bytes w) (λ x w. Begins session bytes w) r w
      go (ok a) w (new, (row, file), known) = (row, rw file (front new known))
      go (err x) w h = h

  -- An answer of the step's own in place of its error.
  Leaves-or_problem :
      {A : Type 0} (P : World e → Type 0) (Q : A → World e → Type 0) (m : Action e Error A) (n : ℕ)
      (message : String)
      → Leaves P m Q (λ x w. Begins session bytes w)
      → Leaves P (m or_fail problem n message) Q (λ x w. Begins session bytes w × IsProblem x)
  Leaves-or_problem P Q m n message k =
      Leaves-or_fail Q m (problem n message) (record { at = λ w p. go (m w).0 (m w).1 (k.at w p) })
    where
      go :
          (r : Result Error _) (w : World e)
          → Post Q (λ x w. Begins session bytes w) r w
          → Post Q (λ _ w. Begins session bytes w × IsProblem (problem n message)) r w
      go (ok a) w h = h
      go (err x) w h = (h, (n, message, refl))

  module _ (chunk : List ℕ) where
    Leaves-copy_to :
        Leaves {e = e}
          (λ w. (new : List ℕ) × Holds session new w × (new ≡ bytes))
          (copy_to (upload_session_path session.id) chunk)
          (λ n w. Holds session (bytes ++ chunk) w × (length chunk ≡ n))
          (λ x w. Begins session bytes w)
    unfolding copy_to
    Leaves-copy_to =
        Leaves-call (λ w p. p) _ (λ w p. (written w p, refl))
          (λ w (new, (row, file), same). (row, rw (file, same) (take-whole bytes)))
          (λ w p.
            Holds-Begins session bytes chunk
              (record w {
                staging = write_file w.staging path (or_empty (w.staging path) ++ chunk);
              })
              (written w p))
      where
        path : Text
        path = upload_session_path session.id

        written :
            (w : World e)
            → (new : List ℕ) × Holds session new w × (new ≡ bytes)
            → InDb session w
              × (write_file w.staging path (or_empty (w.staging path) ++ chunk) path
                  ≡ some (bytes ++ chunk))
        written w (new, (row, file), same) =
            (row, write_file-same w.staging path _ ∙ rw (file, same))

    Leaves-counted :
        (n size : ℕ)
        → Leaves {e = e}
            (λ w. Holds session (bytes ++ chunk) w × (length chunk ≡ n))
            (refuse_if
              (not (n == size))
              (problem 400 "content length does not match content range"))
            (λ u w. Holds session (bytes ++ chunk) w × (length chunk ≡ size))
            (λ x w. Begins session bytes w × IsProblem x)
    Leaves-counted n size = record { at = λ w p. go (n == size) refl w p }
      where
        go :
            (t : Bool)
            → (n == size) ≡ t
            → (w : World e) → Holds session (bytes ++ chunk) w × (length chunk ≡ n)
            → let r =
                refuse_if (not t) (problem 400 "content length does not match content range") w in
              Post
                (λ (u : Unit {0}) w. Holds session (bytes ++ chunk) w × (length chunk ≡ size))
                (λ (x : Response (Unit {0})) w. Begins session bytes w × IsProblem x)
                r.0
                r.1
        go true h w (p, counted) = (p, counted ∙ eq_of_true n size h)
        go false h w (p, counted) = (Holds-Begins session bytes chunk w p, (_, _, refl))

pub stage_chunk-Leaves :
    {e : Env} (session : UploadSession) (bytes body : List ℕ) (size : ℕ)
    → session.size ≡ length bytes
    → Leaves {e = e}
        (Begins session bytes)
        (stage_chunk session size body)
        (λ u w.
          Holds session (bytes ++ limit_reader body size) w
          × (length (limit_reader body size) ≡ size))
        (λ x w. Begins session bytes w × IsProblem x)
unfolding stage_chunk open_staging truncate_staging
stage_chunk-Leaves {e} session bytes body size sized =
    let chunk : List ℕ = limit_reader body size in
    let starts : World e → Type 0 = Begins session bytes in
    Leaves-bind (λ _. starts) _ _ _
      (Leaves-or_problem session bytes starts _ _ _ _
        (Leaves-proceed session bytes starts (λ w p. p) (λ w p. p)))
      λ _.
        Leaves-bind (λ _. starts) _ _ _
          (Leaves-or_problem session bytes starts _ _ _ _ (
            Leaves-forget session bytes (λ bs. take (length bytes) bs ≡ bytes) _
              (Leaves-with_file session bytes starts (λ bs. take (length bytes) bs ≡ bytes)
                (λ bs. bs) (λ w p. p) (λ w p. p) (λ w p. p.1) (λ new front. front))
              (λ new front. front)))
          λ _.
            Leaves-bind (λ _ w. (new : List ℕ) × Holds session new w × (new ≡ bytes)) _ _ _
              (Leaves-or_problem session bytes starts _ _ _ _ (
                Leaves-with_file session bytes starts (λ bs. bs ≡ bytes) (truncated session.size)
                  (λ w p. p) (λ w p. p)
                  (λ w p. rw sized (
                    take-front bytes (or_empty (w.staging (upload_session_path session.id)))
                      (zeros (length bytes)) p.1))
                  (λ new same. rw same (take-whole bytes))))
              λ _.
                Leaves-bind (λ _ w. (new : List ℕ) × Holds session new w × (new ≡ bytes)) _ _ _
                  (Leaves-or_problem session bytes _ _ _ _ _ (
                    Leaves-proceed session bytes _ (λ w p. p)
                      (λ w (new, (row, file), same). (row, rw (file, same) (take-whole bytes)))))
                  λ _.
                    Leaves-bind (λ n w. Holds session (bytes ++ chunk) w × (length chunk ≡ n)) _ _ _
                      (Leaves-or_problem session bytes _ _ _ _ _
                        (Leaves-copy_to session bytes chunk))
                      λ n.
                        Leaves-bind (λ _ w. Holds session (bytes ++ chunk) w × (length chunk ≡ n)) _
                          _ _
                          (Leaves-or_problem session bytes _ _ _ _ _ (
                            Leaves-proceed session bytes
                              (λ w. Holds session (bytes ++ chunk) w × (length chunk ≡ n))
                              (λ w p. p) (λ w p. Holds-Begins session bytes chunk w p.0)))
                          λ _. Leaves-counted session bytes chunk n size
