-- ===== src/Upload/Session/Reached.antt =====
-- What `PutUploadSession` leaves of the transfer that a world represents.
use den_kit_stash.Base.{
  ℕ, suc, ◌≡◌, refl, subst, Text, true, false, Option, none, some, List, find, find-passes, codes,
  length, ◌==◌, codes_eq, number_eq, eq_of_true, Option-cases, inl, inr,
}
use den_kit_stash.Model.{UploadSession}
use den_kit_stash.World.{
  query_row, Env, World, Action, Error, Result, from_option, no_rows, ◌>>◌, ◌or_fail◌,
}
use den_kit_stash.World.Outcomes.{Post, Leaves, Leaves-bind, Leaves-or_fail, Leaves-call}
use den_kit_stash.Http.{Response, problem, status}
use den_kit_stash.Build.Access.{refuse_if}
use den_kit_stash.Database.Sessions.{get_upload_session_by_id}
use den_kit_stash.Upload.Session.{is_done, resume_range}
use den_kit_stash.Upload.Session.Transfer.{Transfer, receiving, finished, stay, Represents, Reached}
use den_kit_stash.Upload.Session.Held.{Begins}
use den_kit_stash.Upload.Session.Answers.{Leaves-refuse, problem-Answered, resume-Answered}
use den_kit_stash.Upload.Session.Replies.{Replies, put_chunk-Replies, put_empty_final-Replies}
use den_kit_stash.Upload.Range.{match_chunk, match_empty_final}
use den_kit_stash.Upload.Session.{put_upload_session, put_ranged, put_final_or_refuse}
use den_kit_stash.Upload.Range.Bounds.{match_chunk_lt}

module _ {e : Env} (session : UploadSession) (bytes : List ℕ) (range : Text) (body : List ℕ)
    (limit : ℕ) (sized : session.size ≡ length bytes) (going : is_done session.state ≡ false) where
  -- A session that is not completed.
  put_ranged-Replies :
      Leaves {e = e}
        (Begins session bytes)
        (put_ranged limit session range (match_chunk range) body)
        (Replies session bytes body sized going)
        (Replies session bytes body sized going)
  put_ranged-Replies = go (match_chunk range) refl
    where
      final :
          (o : Option (ℕ × ℕ))
          → Leaves {e = e}
              (Begins session bytes)
              (put_final_or_refuse limit session o)
              (Replies session bytes body sized going)
              (Replies session bytes body sized going)
      final none = record {
        at = λ w p. problem-Answered session bytes body sized going 400 "invalid content range" w p;
      }
      final (some (start, total)) =
          put_empty_final-Replies session bytes body sized going limit start total

      go :
          (o : Option (ℕ × ℕ × Option ℕ))
          → match_chunk range ≡ o
          → Leaves {e = e}
              (Begins session bytes)
              (put_ranged limit session range o body)
              (Replies session bytes body sized going)
              (Replies session bytes body sized going)
      go none h = final (match_empty_final range)
      go (some (start, end, total)) h =
          let bounds = match_chunk_lt range start end total h in
          put_chunk-Replies session bytes body sized going limit start end total bounds.0 bounds.1

-- The handler once it has the session, for any state that the session is in.
module _ {e : Env} (limit : ℕ) (range : Text) (body : List ℕ) where
  abbrev with_session : UploadSession → Action e (Response (Unit {0})) (Response (Unit {0}))
  with_session session = do
    refuse_if (is_done session.state) (status 200)
    refuse_if (range == codes "bytes */*") (resume_range session.size)
    put_ranged limit session range (match_chunk range) body

  abbrev ReachedBy :
      Text → Text → Transfer → Result (Response (Unit {0})) (Response (Unit {0})) → World e → Type 0
  ReachedBy id path t r w =
      Post (λ x w. Reached id path body t x w) (λ x w. Reached id path body t x w) r w

  with_session-Reached :
      (session : UploadSession) (t : Transfer) (w : World e)
      → find (λ s. s.id == session.id) w.db.upload_sessions.rows ≡ some session
      → Represents session.id session.storage_path t w
      → let r = with_session session w in ReachedBy session.id session.storage_path t r.0 r.1
  with_session-Reached session (receiving bytes) w row ((found, again, _, sized, going), front) =
      let same : found ≡ session = cc (row, again) in
      let sized' : session.size ≡ length bytes = subst (λ s. s.size ≡ length bytes) same sized in
      let going' : is_done session.state ≡ false =
        subst (λ s. is_done s.state ≡ false) same going in
      rw going' (
        (Leaves-refuse {P = Begins session bytes} (range == codes "bytes */*") _ _
            (λ _ w p. resume-Answered session bytes body sized' going' w p)
            λ _. put_ranged-Replies session bytes range body limit sized' going').at
          w (row, front))
  with_session-Reached session (finished bytes) w row ((found, again, named, sized, over), put) =
      let same : found ≡ session = cc (row, again) in
      let over' : is_done session.state ≡ true = subst (λ s. is_done s.state ≡ true) same over in
      rw over'
        (finished bytes, stay (finished bytes), ((found, again, named, sized, over), put), tt)

  -- The same under the names that the client uses.
  named_session-Reached :
      (id path : Text) (session : UploadSession) (t : Transfer) (w : World e)
      → find (λ s. s.id == id) w.db.upload_sessions.rows ≡ some session
      → session.storage_path ≡ path
      → Represents id path t w
      → let r = with_session session w in ReachedBy id path t r.0 r.1
  named_session-Reached id path session t w row at_path held =
      subst
        (λ i.
          find (λ s. s.id == i) w.db.upload_sessions.rows ≡ some session
          → Represents i path t w
          → let r = with_session session w in ReachedBy i path t r.0 r.1)
        same
        (subst
          (λ p.
            find (λ s. s.id == session.id) w.db.upload_sessions.rows ≡ some session
            → Represents session.id p t w
            → let r = with_session session w in ReachedBy session.id p t r.0 r.1)
          at_path (with_session-Reached session t w))
        row held
    where
      same : session.id ≡ id
      same =
          eq_of_true session.id id
            (find-passes (λ s. s.id == id) w.db.upload_sessions.rows session row)

  uncounted :
      (id path : Text) (t : Transfer) (w : World e)
      → Represents id path t w
      → Represents id path t (record w { calls = suc w.calls })
  uncounted id path (receiving bytes) w h = h
  uncounted id path (finished bytes) w h = h

  found_session :
      (id path : Text) (t : Transfer)
      → Leaves {e = e}
          (Represents id path t)
          (get_upload_session_by_id id or_fail problem 404 "upload session not found")
          (λ session w.
            Represents id path t w
            × (find (λ s. s.id == id) w.db.upload_sessions.rows ≡ some session))
          (λ x w. Reached id path body t x w)
  unfolding get_upload_session_by_id query_row
  found_session id path t =
      Leaves-or_fail _ _ _ (Leaves-call (uncounted id path t) _ found stays stays)
    where
      stays :
          (w : World e)
          → Represents id path t w
          → Reached id path body t (problem 404 "upload session not found") w
      stays w h = (t, stay t, h, tt)

      found :
          (w : World e)
          → Represents id path t w
          → Post {E = Error}
              (λ session w.
                Represents id path t w
                × (find (λ s. s.id == id) w.db.upload_sessions.rows ≡ some session))
              (λ x w. Reached id path body t (problem 404 "upload session not found") w)
              (from_option no_rows (find (λ s. s.id == id) w.db.upload_sessions.rows))
              w
      found w h = elim (Option-cases (find (λ s. s.id == id) w.db.upload_sessions.rows)) [
        | inl missing ↦ rw missing (stays w h)
        | inr (session, row) ↦ rw row (h, row)
      ]

  row_path :
      (id path : Text) (t : Transfer) (w : World e) (session : UploadSession)
      → Represents id path t w
      → find (λ s. s.id == id) w.db.upload_sessions.rows ≡ some session
      → session.storage_path ≡ path
  row_path id path (receiving bytes) w session ((found, again, at_path, _, _), _) row =
      let same : found ≡ session = cc (row, again) in
      subst (λ s. s.storage_path ≡ path) same at_path
  row_path id path (finished bytes) w session ((found, again, at_path, _, _), _) row =
      let same : found ≡ session = cc (row, again) in
      subst (λ s. s.storage_path ≡ path) same at_path

  pub put_upload_session-Reached :
      (id path : Text) (t : Transfer)
      → Leaves {e = e}
          (Represents id path t)
          (put_upload_session limit id range body)
          (λ x w. Reached id path body t x w)
          (λ x w. Reached id path body t x w)
  unfolding put_upload_session
  put_upload_session-Reached id path t =
      Leaves-bind
        (λ session w.
          Represents id path t w
          × (find (λ s. s.id == id) w.db.upload_sessions.rows ≡ some session))
        _ _ _ (found_session id path t)
        λ session. record {
          at = λ w (h, row).
              named_session-Reached id path session t w row (row_path id path t w session h row) h;
        }
