-- ===== src/Upload/Session/Progress.antt =====
-- A chunk that is sent in order arrives, where the outside calls are answered.
use den_kit_stash.Base.{
  find-All, ℕ, zero, suc, ◌+◌, ◌^◌, ◌≤◌, ◌<◌, ◌≡◌, refl, sym, ap, subst, Text, true, none, some,
  List, [], ◌∷◌, ◌++◌, take, length, length-append, ◌==◌, codes_eq, number_eq, arith,
}
use den_kit_stash.World.{Env, World, answered, err}
use den_kit_stash.Http.{Response, respond, settle}
use den_kit_stash.Database.Sessions.{has_build_file}
use den_kit_stash.Upload.Range.{match_chunk}
use den_kit_stash.Upload.Session.{resume_range, put_upload_session}
use den_kit_stash.Upload.Session.Transfer.{
  Transfer, receiving, finished, Step, stay, add, finish, Represents, Tells,
}
use den_kit_stash.Upload.Session.Refinement.{put_upload_session_refines}
use den_kit_stash.Database.Integrity.{IsValid}
use den_kit_stash.Upload.Session.Live.{put_upload_session-answer}

take-same :
    (n : ℕ) (bytes body : List ℕ)
    → length (bytes ++ take n body) ≡ length bytes + length body
    → take n body ≡ body
take-same n bytes body h = whole n body (let k = length-append bytes (take n body) in omega arith)
  where
    whole : (n : ℕ) (xs : List ℕ) → length (take n xs) ≡ length xs → take n xs ≡ xs
    whole zero [] h = refl
    whole zero (x ∷ xs) h = absurd (omega arith)
    whole (suc n) [] h = refl
    whole (suc n) (x ∷ xs) h = ap (◌∷◌ x) (whole n xs (omega arith))

resume_range-inj :
    (n m : ℕ) → ◌≡◌ {A = Response (Unit {0})} (resume_range n) (resume_range m) → n ≡ m
resume_range-inj zero zero h = refl
resume_range-inj zero (suc m) h = absurd (cc h)
resume_range-inj (suc n) zero h = absurd (cc h)
resume_range-inj (suc n) (suc m) h = ap suc (cc h)

told : (n : ℕ) (bytes : List ℕ) → Tells (resume_range n) (receiving bytes) → n ≡ length bytes
told zero bytes h = resume_range-inj zero (length bytes) h
told (suc n) bytes h = resume_range-inj (suc n) (length bytes) h

untold : (n : ℕ) (bytes : List ℕ) → Tells (resume_range n) (finished bytes) → ⊥
untold zero bytes h = h
untold (suc n) bytes h = h

-- The one step whose answer is the range behind all of the body.
arrived :
    (bytes body : List ℕ) (t' : Transfer)
    → 0 < length body
    → Step body (receiving bytes) t'
    → Tells (resume_range (length bytes + length body)) t'
    → t' ≡ receiving (bytes ++ body)
arrived bytes body t' some_bytes (stay t) tells =
    absurd (let n = told (length bytes + length body) bytes tells in omega arith)
arrived bytes body t' some_bytes (add n _) tells =
    ap (λ chunk. receiving (bytes ++ chunk))
      (take-same n bytes body
        (sym (told (length bytes + length body) (bytes ++ take n body) tells)))
arrived bytes body t' some_bytes (finish n _) tells =
    absurd (untold (length bytes + length body) (bytes ++ take n body) tells)

-- Where the outside calls are answered and the tables are valid, a chunk of unknown total arrives: sent
-- from where the transfer is, with a range as long as its body, not empty, and under a limit that is an
-- int64, it leaves a world that represents the transfer with the whole body added, and
-- is answered by the range of all the bytes.
pub put_upload_session_arrives :
    {e : Env} (limit end : ℕ) (id path range : Text) (bytes body : List ℕ) (w : World e)
    → ((n : ℕ) → e.outcome n ≡ answered)
    → IsValid w.db
    → Represents id path (receiving bytes) w
    → match_chunk range ≡ some (length bytes, end, none)
    → end + 1 ≡ length bytes + length body
    → 0 < length body
    → length bytes + length body ≤ limit
    → limit < 2 ^ 63
    → let r = respond (put_upload_session limit id range body) w in
      (r.0 ≡ resume_range (length bytes + length body))
      × Represents id path (receiving (bytes ++ body)) r.1
put_upload_session_arrives limit end id path range bytes body w live valid h named ends some_bytes
      fits bound =
    let ((session, row, at_path, sized, going), front) = h in
    let answer : (put_upload_session limit id range body w).0
        ≡ err (resume_range (length bytes + length body)) =
      subst
        (λ n. (put_upload_session limit id range body w).0 ≡ err (resume_range (n + length body)))
        sized
        (put_upload_session-answer live limit end id range session body w row going
          (subst (λ n. match_chunk range ≡ some (n, end, none)) (sym sized) named)
          (subst (λ n. end + 1 ≡ n + length body) (sym sized) ends) some_bytes
          (subst (λ n. n + length body ≤ limit) (sym sized) fits) bound
          (find-All (λ s. has_build_file w.db s.build_file_id ≡ true) (λ s. s.id == id)
            w.db.upload_sessions.rows session valid.session_files row)) in
    let (t', step, reached, tells) =
      put_upload_session_refines limit id path range body (receiving bytes) w h in
    let said : settle (put_upload_session limit id range body w).0
        ≡ resume_range (length bytes + length body) =
      ap settle answer in
    let there : t' ≡ receiving (bytes ++ body) =
      arrived bytes body t' some_bytes step (subst (λ x. Tells x t') said tells) in
    (
      said,
      subst (λ t. Represents id path t (respond (put_upload_session limit id range body) w).1) there
          reached,
    )
