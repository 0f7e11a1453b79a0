-- ===== src/Upload/Session/Answers.antt =====
-- What a request on an upload session answers early, and how it ends.
use den_kit_stash.Base.{
  ℕ, String, ◌≡◌, refl, Bool, true, false, not, Option, none, some, List, ◌++◌, take, length, ◌==◌,
  codes_eq, number_eq, ◌⊎◌, inl, inr,
}
use den_kit_stash.Model.{UploadSession}
use den_kit_stash.World.{Env, World, Action, Error, ◌>>=◌, ◌or_fail◌}
use den_kit_stash.World.Outcomes.{Leaves, Leaves-bind, Leaves-or_fail, Leaves-weaken}
use den_kit_stash.Http.{Response, problem, internal_error}
use den_kit_stash.Build.Access.{refuse_if}
use den_kit_stash.Database.Sessions.{update_upload_session}
use den_kit_stash.Upload.Session.{
  upload_session_path, is_done, commit_upload_session, finish_chunk, resume_range,
}
use den_kit_stash.Upload.Session.Transfer.{
  receiving, finished, stay, add, finish, IsStaged, Represents, Reached, Tells-resume_range,
}
use den_kit_stash.Upload.Session.Held.{InDb, Begins}
use den_kit_stash.Upload.Session.Commit.{set, Updated, Ready, Settled, Leaves-update, Leaves-commit}

-- A test that answers early.
module _ {e : Env} {B A : Type 0} {P : World e → Type 0} {Q : A → World e → Type 0}
    {R : Response B → World e → Type 0} where
  pub Leaves-refuse :
      (t : Bool) (x : Response B) (f : Unit {0} → Action e (Response B) A)
      → (t ≡ true → (w : World e) → P w → R x w)
      → (t ≡ false → Leaves P (f tt) Q R)
      → Leaves P (refuse_if t x >>= f) Q R
  Leaves-refuse true x f early rest = record { at = λ w p. early refl w p }
  Leaves-refuse false x f early rest = record { at = λ w p. (rest refl).at w p }

module _ {e : Env} {B : Type 0} {P : World e → Type 0} {R : Response B → World e → Type 0} where
  pub Leaves-refuse_last :
      (t : Bool) (x : Response B)
      → (t ≡ true → (w : World e) → P w → R x w)
      → Leaves P (refuse_if t x) (λ u w. P w) R
  Leaves-refuse_last true x early = record { at = λ w p. early refl w p }
  Leaves-refuse_last false x early = record { at = λ w p. p }

-- What stays as it was, and is answered by an error.
module _ {e : Env} (session : UploadSession) (bytes body : List ℕ)
    (sized : session.size ≡ length bytes) (going : is_done session.state ≡ false) where
  abbrev Answered : Response (Unit {0}) → World e → Type 0
  Answered x w = Reached session.id session.storage_path body (receiving bytes) x w

  pub problem-Answered :
      (n : ℕ) (message : String) (w : World e)
      → Begins session bytes w
      → Answered (problem n message) w
  problem-Answered n message w (row, front) =
      (receiving bytes, stay (receiving bytes), ((session, row, refl, sized, going), front), tt)

  pub resume-Answered :
      (w : World e) → Begins session bytes w → Answered (resume_range session.size) w
  resume-Answered w (row, front) = (
    receiving bytes,
    stay (receiving bytes),
    ((session, row, refl, sized, going), front),
    Tells-resume_range session.size bytes sized,
  )

  module _ (n size : ℕ) (whole : size ≡ length (bytes ++ take n body)) where
    pub committed :
        Leaves {e = e}
          (Ready session bytes (bytes ++ take n body))
          (commit_upload_session (record session { size = size }) (upload_session_path session.id)
            or_fail internal_error)
          (λ u w. Represents session.id session.storage_path (finished (bytes ++ take n body)) w)
          Answered
    committed = Leaves-or_fail _ _ _ (
        Leaves-weaken _ (λ w p. p) (λ u w h. h) settled
          (Leaves-commit session bytes (bytes ++ take n body) size sized going whole))
      where
        settled :
            (x : Error) (w : World e)
            → Settled session bytes (bytes ++ take n body) w
            → Answered internal_error w
        settled x w (inl h) = (receiving bytes, stay (receiving bytes), h, tt)
        settled x w (inr h) = (finished (bytes ++ take n body), finish n bytes, h, tt)

    -- The row is updated to the size of all the bytes.
    extended :
        (w : World e)
        → Updated session (record session { size = size }) w
        → IsStaged session.id (bytes ++ take n body) w
        → Represents session.id session.storage_path (receiving (bytes ++ take n body)) w
    extended w (now, row) front =
        ((set (record session { size = size }) now session, row, refl, whole, going), front)

    updated :
        Leaves {e = e}
          (Ready session bytes (bytes ++ take n body))
          (update_upload_session (record session { size = size })
            or_fail problem 500 "could not update upload session")
          (λ u w. Represents session.id session.storage_path (receiving (bytes ++ take n body)) w)
          Answered
    updated = Leaves-or_fail _ _ _ (
        Leaves-weaken {e = e} _ (λ w (row, front, fronts). (row, (front, fronts)))
          (λ u w (new, (front, fronts)). extended w new fronts) failed
          (Leaves-update {e = e} session (record session { size = size })
            (λ w.
              IsStaged {e = e} session.id bytes w
              × IsStaged {e = e} session.id (bytes ++ take n body) w)
            refl (λ w k. k) (λ w db k. k)))
      where
        failed :
            (x : Error) (w : World e)
            → (InDb session w ⊎ Updated session (record session { size = size }) w)
              × (IsStaged session.id bytes w × IsStaged session.id (bytes ++ take n body) w)
            → Answered (problem 500 "could not update upload session") w
        failed x w (inl row, (front, fronts)) =
            problem-Answered 500 "could not update upload session" w (row, front)
        failed x w (inr new, (front, fronts)) =
            (receiving (bytes ++ take n body), add n bytes, extended w new fronts, tt)

    pub finish_chunk-Answered :
        (total : Option ℕ)
        → Leaves {e = e}
            (Ready session bytes (bytes ++ take n body))
            (finish_chunk (record session { size = size }) total)
            Answered
            Answered
    unfolding finish_chunk
    finish_chunk-Answered none =
        Leaves-bind
          (λ u w. Represents session.id session.storage_path (receiving (bytes ++ take n body)) w) _
          _ _ updated
          λ u. record {
            at = λ w h. (
              receiving (bytes ++ take n body),
              add n bytes,
              h,
              Tells-resume_range size (bytes ++ take n body) whole,
            );
          }
    finish_chunk-Answered (some total) =
        Leaves-refuse (not (size == total)) _ _
          (λ t w (row, front, _). problem-Answered 400 "final upload size mismatch" w (row, front))
          λ t.
            Leaves-bind
              (λ u w.
                Represents session.id session.storage_path (finished (bytes ++ take n body)) w)
              _ _ _ committed
              λ u. record { at = λ w h. (finished (bytes ++ take n body), finish n bytes, h, tt) }
