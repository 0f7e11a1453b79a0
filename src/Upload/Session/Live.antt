-- ===== src/Upload/Session/Live.antt =====
-- The answer to a chunk, where the outside calls are answered.
use den_kit_stash.Base.{
  ℕ, ◌+◌, ◌^◌, ◌≤◌, ◌<◌, ◌≡◌, refl, ap, ◌∙◌, subst, Text, true, false, not, Option, none, some,
  List, find, take-length, length, ◌==◌, codes, codes_eq, number_eq, arith, eq_refl, eq_of_true,
  Bool-cases, inl, inr,
}
use den_kit_stash.Model.{UploadSession}
use den_kit_stash.World.{
  Env, World, Action, Error, answered, ok, err, call, query_row, exec, ◌>>=◌, ◌or_fail◌,
}
use den_kit_stash.World.Laws.{ticked}
use den_kit_stash.Http.{Response, problem}
use den_kit_stash.Archive.Rebuild.{proceed}
use den_kit_stash.Build.Access.{refuse_if}
use den_kit_stash.Database.Sessions.{
  has_build_file, get_upload_session_by_id, update_upload_session,
}
use den_kit_stash.Upload.Range.{add64, sub64, lt64, match_chunk}
use den_kit_stash.Upload.Session.{
  upload_session_path, open_staging, truncate_staging, truncated, copy_to, limit_reader, is_done,
  resume_range, stage_chunk, finish_chunk, put_chunk, put_upload_session, with_file,
}

-- From any world the action succeeds with this answer, and leaves the tables alone.
record Runs {e : Env} {E A : Type 0} (m : Action e E A) (a : A) : Type 0 where
  at : (w : World e) → (w' : World e) × (m w ≡ (ok a, w')) × (w'.db ≡ w.db)

module _ {e : Env} {E A : Type 0} where
  Runs-bind :
      {B : Type 0} (m : Action e E A) (f : A → Action e E B) (a : A) (b : B)
      → Runs m a
      → ((x : A) → x ≡ a → Runs (f x) b)
      → Runs (m >>= f) b
  Runs-bind m f a b km kf = record {
    at = λ w.
        let (w1, ran, same) = km.at w in
        let (w2, went, same') = (kf a refl).at w1 in (w2, rw ran went, same' ∙ same);
  }

  Runs-or_fail : {F : Type 0} (m : Action e E A) (x : F) (a : A) → Runs m a → Runs (m or_fail x) a
  Runs-or_fail m x a k = record { at = λ w. let (w', ran, same) = k.at w in (w', rw ran, same) }

-- The environment answers every call.
module _ {e : Env} (live : (n : ℕ) → e.outcome n ≡ answered) where
  call-live : {A : Type 0} (op : Action e Error A) (w : World e) → call op w ≡ op (ticked w)
  unfolding call
  call-live op w = rw live

  Runs-proceed : Runs {e = e} proceed tt
  unfolding proceed
  Runs-proceed = record { at = λ w. (ticked w, call-live _ w, refl) }

  Runs-with_file :
      (path : Text) (change : List ℕ → List ℕ) → Runs {e = e} (with_file path change) tt
  Runs-with_file path change = record { at = λ w. (_, call-live _ w, refl) }

  Runs-copy_to : (path : Text) (bytes : List ℕ) → Runs {e = e} (copy_to path bytes) (length bytes)
  unfolding copy_to
  Runs-copy_to path bytes = record { at = λ w. (_, call-live _ w, refl) }

  Runs-counted :
      (n size : ℕ)
      → n ≡ size
      → Runs {e = e} {E = Response (Unit {0})}
          (refuse_if (not (n == size)) (problem 400 "content length does not match content range"))
          tt
  Runs-counted n size same = record { at = λ w. (w, rw (same, eq_refl size), refl) }

  Runs-stage_chunk :
      (session : UploadSession) (size : ℕ) (body : List ℕ)
      → length (limit_reader body size) ≡ size
      → Runs {e = e} (stage_chunk session size body) tt
  unfolding stage_chunk open_staging truncate_staging
  Runs-stage_chunk session size body whole =
      Runs-bind _ _ _ _ (Runs-or_fail _ _ _ Runs-proceed) λ _ _.
        Runs-bind _ _ _ _
          (Runs-or_fail _ _ _ (Runs-with_file (upload_session_path session.id) (λ b. b)))
          λ _ _.
            Runs-bind _ _ _ _
              (Runs-or_fail _ _ _
                (Runs-with_file (upload_session_path session.id) (truncated session.size)))
              λ _ _. Runs-bind _ _ _ _ (Runs-or_fail _ _ _ Runs-proceed) λ _ _.
                Runs-bind _ _ _ _
                  (Runs-or_fail _ _ _
                    (Runs-copy_to (upload_session_path session.id) (limit_reader body size)))
                  λ n counted.
                    Runs-bind _ _ _ _ (Runs-or_fail _ _ _ Runs-proceed)
                      λ _ _. Runs-counted n size (counted ∙ whole)

  Runs-update :
      (session : UploadSession) (w : World e)
      → has_build_file w.db session.build_file_id ≡ true
      → (update_upload_session session w).0 ≡ ok tt
  unfolding update_upload_session exec
  Runs-update session w there = rw (call-live, there)

  -- The answer to a chunk, of a session that goes on where the chunk starts.
  put_chunk-answer :
      (limit end : ℕ) (session : UploadSession) (body : List ℕ) (w : World e)
      → end + 1 ≡ session.size + length body
      → 0 < length body
      → session.size + length body ≤ limit
      → limit < 2 ^ 63
      → has_build_file w.db session.build_file_id ≡ true
      → (put_chunk limit session session.size end none body w).0
        ≡ err (resume_range (session.size + length body))
  unfolding put_chunk finish_chunk
  put_chunk-answer limit end session body w ends some_bytes fits bound there =
      let size : ℕ = add64 (sub64 end session.size) 1 in
      let counted : size ≡ length body = omega arith in
      let sum : add64 session.size (length body) ≡ session.size + length body = omega arith in
      let ordered : lt64 end session.size ≡ false = ground arith in
      let allowed : lt64 limit (session.size + length body) ≡ false = ground arith in
      let positive : lt64 (length body) 0 ≡ false = ground arith in
      let chunk : limit_reader body (length body) ≡ body =
        rw positive (take-length (length body) body (omega arith)) in
      rw (eq_refl session.size, ordered, counted, sum, allowed)
        (let (w', ran, same) =
            (Runs-stage_chunk session (length body) body (ap length chunk)).at w in
          rw (
            ran,
            Runs-update (record session { size = session.size + length body }) w' (rw same there),
          ))

  -- The answer to the request, by the session's row.
  pub put_upload_session-answer :
      (limit end : ℕ) (id range : Text) (session : UploadSession) (body : List ℕ) (w : World e)
      → find (λ s. s.id == id) w.db.upload_sessions.rows ≡ some session
      → is_done session.state ≡ false
      → match_chunk range ≡ some (session.size, end, none)
      → end + 1 ≡ session.size + length body
      → 0 < length body
      → session.size + length body ≤ limit
      → limit < 2 ^ 63
      → has_build_file w.db session.build_file_id ≡ true
      → (put_upload_session limit id range body w).0
        ≡ err (resume_range (session.size + length body))
  unfolding put_upload_session get_upload_session_by_id query_row match_chunk
  put_upload_session-answer limit end id range session body w row going named ends some_bytes fits
        bound there =
      rw (call-live, row, going, other range _ named, named)
        (put_chunk-answer limit end session body (ticked w) ends some_bytes fits bound there)
    where
      unmatched : match_chunk (codes "bytes */*") ≡ none
      unmatched = refl

      other :
          (range : Text) (r : ℕ × ℕ × Option ℕ)
          → match_chunk range ≡ some r
          → (range == codes "bytes */*") ≡ false
      other range r h = elim (Bool-cases (range == codes "bytes */*")) [
        | inl same ↦ absurd (
            let h' =
              subst (λ s. match_chunk s ≡ some r) (eq_of_true range (codes "bytes */*") same) h in
            cc (unmatched, h'))
        | inr different ↦ different
      ]
