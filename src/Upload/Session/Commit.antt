-- ===== src/Upload/Session/Commit.antt =====
-- What the commit of an upload session leaves, on every outcome of its calls.
use den_kit_stash.Base.{
  ℕ, suc, ◌≡◌, refl, sym, ap, false, Option, none, some, List, find, take, length, ◌==◌, codes_eq,
  number_eq, ◌⊎◌, inl, inr,
}
use den_kit_stash.Model.{UploadSession, completed}
use den_kit_stash.World.{Env, World, Error, from_option, no_rows}
use den_kit_stash.World.Outcomes.{
  Post, Leaves, Leaves-bind, Leaves-or_fail, Leaves-call, Leaves-exec, Leaves-weaken,
}
use den_kit_stash.World.Tables.{Db, modify_rows}
use den_kit_stash.Archive.Files.{upload_object}
use den_kit_stash.Database.Sessions.{update_upload_session}
use den_kit_stash.Upload.Session.{upload_session_path, is_done, read_staging, commit_upload_session}
use den_kit_stash.Upload.Session.Transfer.{
  receiving, finished, HasPut, IsStaged, Represents, find-modify_rows,
}
use den_kit_stash.Upload.Session.Held.{InDb}

-- The UPDATE of a session's row.
abbrev pub set : UploadSession → ℕ → UploadSession → UploadSession
set given now s = record given { id = s.id; created_at = s.created_at; updated_at = now }

abbrev pub Updated : {e : Env} → UploadSession → UploadSession → World e → Type 0
Updated session given w =
    (now : ℕ) × (find (λ s. s.id == session.id) w.db.upload_sessions.rows
      ≡ some (set given now session))

set_row :
    (session given : UploadSession) (now : ℕ) (db : Db)
    → given.id ≡ session.id
    → find (λ s. s.id == session.id) db.upload_sessions.rows ≡ some session
    → find
        (λ s. s.id == session.id)
        (modify_rows (λ s. s.id == given.id) (set given now) db.upload_sessions.rows)
      ≡ some (set given now session)
set_row session given now db same row =
    find-modify_rows (λ s. s.id == session.id) (λ s. s.id == given.id) (set given now)
      (λ s. ap (λ i. s.id == i) (sym same)) (λ s h. h) db.upload_sessions.rows session row

module _ {e : Env} (session given : UploadSession) (K : World e → Type 0) where
  -- For what is known of the world apart from its tables.
  pub Leaves-update :
      given.id ≡ session.id
      → ((w : World e) → K w → K (record w { calls = suc w.calls }))
      → ((w : World e) (db : Db) → K w → K (record w { db = db }))
      → Leaves
          (λ w. InDb session w × K w)
          (update_upload_session given)
          (λ u w. Updated session given w × K w)
          (λ x w. (InDb session w ⊎ Updated session given w) × K w)
  unfolding update_upload_session
  Leaves-update same uncounted other =
      Leaves-exec (λ w (row, k). (row, uncounted w k)) _ _
        (λ w now (row, k) allowed. ((now, set_row session given now w.db same row), other w _ k))
        (λ x w (row, k). (inl row, k))
        λ w now (row, k) allowed. (inr (now, set_row session given now w.db same row), other w _ k)

-- The session's row is as it was, and its file begins with all the bytes.
abbrev pub Ready : {e : Env} → UploadSession → List ℕ → List ℕ → World e → Type 0
Ready session bytes all w = InDb session w × IsStaged session.id bytes w × IsStaged session.id all w

-- The transfer goes on where it was, or is finished.
abbrev pub Settled : {e : Env} → UploadSession → List ℕ → List ℕ → World e → Type 0
Settled session bytes all w =
    Represents session.id session.storage_path (receiving bytes) w
    ⊎ Represents session.id session.storage_path (finished all) w

-- The commit of a session whose file begins with all the bytes.
module _ {e : Env} (session : UploadSession) (bytes all : List ℕ) (size : ℕ)
    (sized : session.size ≡ length bytes) (going : is_done session.state ≡ false)
    (whole : size ≡ length all) where
  goes_on : (w : World e) → Ready {e = e} session bytes all w → Settled {e = e} session bytes all w
  goes_on w (row, front, _) = inl ((session, row, refl, sized, going), front)

  Leaves-read :
      Leaves
        (Ready {e = e} session bytes all)
        (read_staging (upload_session_path session.id))
        (λ file w. Ready {e = e} session bytes all w × (take (length all) file ≡ all))
        (λ x w. Settled {e = e} session bytes all w)
  unfolding read_staging
  Leaves-read =
      Leaves-call (λ w p. p) _ (λ w p. go (w.staging (upload_session_path session.id)) w refl p)
        goes_on goes_on
    where
      go :
          (o : Option (List ℕ)) (w : World e)
          → w.staging (upload_session_path session.id) ≡ o
          → Ready {e = e} session bytes all w
          → Post
              (λ file w. Ready {e = e} session bytes all w × (take (length all) file ≡ all))
              (λ x w. Settled {e = e} session bytes all w)
              (from_option no_rows o)
              w
      go none w same p = goes_on w p
      go (some file) w same p = (p, rw same at p.2)

  Leaves-put :
      (file : List ℕ)
      → Leaves
          (λ w. Ready {e = e} session bytes all w × (take (length all) file ≡ all))
          (upload_object session.storage_path file size)
          (λ u w. Ready {e = e} session bytes all w × HasPut e session.storage_path all w.objects)
          (λ x w. Settled {e = e} session bytes all w)
  unfolding upload_object
  Leaves-put file =
      Leaves-call (λ w p. p) _ (λ w (p, front). (p, (w.objects, file, rw whole, front)))
        (λ w (p, front). goes_on w p)
        (λ w (p, front).
          goes_on (record w { objects = e.put w.objects session.storage_path file size }) p)

  Leaves-mark :
      Leaves
        (λ w. Ready {e = e} session bytes all w × HasPut e session.storage_path all w.objects)
        (update_upload_session (record session { size = size; state = completed }))
        (λ u w. Represents session.id session.storage_path (finished all) w)
        (λ x w. Settled {e = e} session bytes all w)
  Leaves-mark =
      Leaves-weaken {e = e} _ (λ w ((row, front, _), put). (row, (front, put)))
        (λ u w (updated, (front, put)). marked w updated put) failed
        (Leaves-update {e = e} session (record session { size = size; state = completed })
          (λ w. IsStaged {e = e} session.id bytes w × HasPut e session.storage_path all w.objects)
          refl (λ w k. k) (λ w db k. k))
    where
      marked :
          (w : World e)
          → Updated session (record session { size = size; state = completed }) w
          → HasPut e session.storage_path all w.objects
          → Represents session.id session.storage_path (finished all) w
      marked w (now, row) put = (
        (
          set (record session { size = size; state = completed }) now session,
          row,
          refl,
          whole,
          refl,
        ),
        put,
      )

      failed :
          (x : Error) (w : World e)
          → (InDb session w ⊎ Updated session (record session { size = size; state = completed }) w)
            × (IsStaged session.id bytes w × HasPut e session.storage_path all w.objects)
          → Settled {e = e} session bytes all w
      failed x w (inl row, (front, put)) = inl ((session, row, refl, sized, going), front)
      failed x w (inr updated, (front, put)) = inr (marked w updated put)

  pub Leaves-commit :
      Leaves
        (Ready {e = e} session bytes all)
        (commit_upload_session (record session { size = size }) (upload_session_path session.id))
        (λ u w. Represents session.id session.storage_path (finished all) w)
        (λ x w. Settled {e = e} session bytes all w)
  unfolding commit_upload_session
  Leaves-commit =
      Leaves-bind (λ file w. Ready {e = e} session bytes all w × (take (length all) file ≡ all)) _ _
        _ (Leaves-or_fail _ _ _ Leaves-read)
        λ file.
          Leaves-bind
            (λ u w. Ready {e = e} session bytes all w × HasPut e session.storage_path all w.objects)
            _ _ _ (Leaves-or_fail _ _ _ (Leaves-put file)) λ u. Leaves-or_fail _ _ _ Leaves-mark
