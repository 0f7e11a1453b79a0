-- ===== src/Upload/Session/Staging.antt =====
-- The staged bytes of an upload session.
use den_kit_stash.Base.{
  ℕ, ◌≡◌, refl, sym, ap, ◌∙◌, eq_refl, eq_of_true, Text, Bool, true, false, not, Option, some, List,
  ◌++◌, length, ◌==◌, number_eq, codes_eq,
}
use den_kit_stash.Model.{UploadSession}
use den_kit_stash.World.{Env, World, ok}
use den_kit_stash.World.Tables.{Db}
use den_kit_stash.World.Laws.{call-ok, ok-inj}
use den_kit_stash.World.Ensures.{Ensures, Ensures-bind, Ensures-or_fail}
use den_kit_stash.Http.{Response, problem}
use den_kit_stash.Archive.Rebuild.{proceed}
use den_kit_stash.Build.Access.{refuse_if}
use den_kit_stash.Upload.Session.{
  upload_session_path, truncated, or_empty, limit_reader, write_file, with_file, open_staging,
  truncate_staging, copy_to, stage_chunk,
}

-- The file at the path holds these bytes, and the tables and the object store are these.
pub record Staged {e : Env} (path : Text) (bytes : Option (List ℕ)) (db : Db) (objects : e.Objects)
    (w : World e) : Type 0 where
  pub staged : w.staging path ≡ bytes
  pub tables : w.db ≡ db
  pub stored : w.objects ≡ objects

write_file-same :
    (files : Text → Option (List ℕ)) (path : Text) (bytes : List ℕ)
    → write_file files path bytes path ≡ some bytes
write_file-same files path bytes = rw (eq_refl path)

abbrev short : Response (Unit {0})
short = problem 400 "content length does not match content range"

module _ {e : Env} {path : Text} {db : Db} {objects : e.Objects} where
  Ensures-proceed :
      (o : Option (List ℕ))
      → Ensures (Staged {e = e} path o db objects) proceed (λ u. Staged {e = e} path o db objects)
  unfolding proceed
  Ensures-proceed o = record {
    at = λ w u s h.
        rw (call-ok _ w u h) (record { staged = s.staged; tables = s.tables; stored = s.stored });
  }

  Ensures-with_file :
      (change : List ℕ → List ℕ) (o : Option (List ℕ))
      → Ensures
          (Staged {e = e} path o db objects)
          (with_file path change)
          (λ u. Staged {e = e} path (some (change (or_empty o))) db objects)
  Ensures-with_file change o = record {
    at = λ w u s h. rw (call-ok _ w u h) (record {
      staged = write_file-same w.staging path _ ∙ ap (λ b. some (change (or_empty b))) s.staged;
      tables = s.tables;
      stored = s.stored;
    });
  }

  Ensures-copy_to :
      (bytes old : List ℕ)
      → Ensures
          (Staged {e = e} path (some old) db objects)
          (copy_to path bytes)
          (λ n w. Staged {e = e} path (some (old ++ bytes)) db objects w × (length bytes ≡ n))
  unfolding copy_to
  Ensures-copy_to bytes old = record {
    at = λ w n s h.
        let ran = call-ok _ w n h in
        (
          rw ran (record {
            staged =
                write_file-same w.staging path _ ∙ ap (λ b. some (or_empty b ++ bytes)) s.staged;
            tables = s.tables;
            stored = s.stored;
          }),
          ok-inj (sym (ap (λ r. r.0) ran) ∙ h),
        );
  }

  Ensures-written :
      (bytes old : List ℕ) (n : ℕ)
      → Ensures
          (λ w. Staged {e = e} path (some (old ++ bytes)) db objects w × (length bytes ≡ n))
          proceed
          (λ u w. Staged {e = e} path (some (old ++ bytes)) db objects w × (length bytes ≡ n))
  Ensures-written bytes old n = record {
    at = λ w u s h. ((Ensures-proceed (some (old ++ bytes))).at w u s.0 h, s.1);
  }

  Ensures-whole :
      (bytes old : List ℕ) (n size : ℕ)
      → Ensures {E = Response (Unit {0})}
          (λ w. Staged {e = e} path (some (old ++ bytes)) db objects w × (length bytes ≡ n))
          (refuse_if (not (n == size)) short)
          (λ u w. Staged {e = e} path (some (old ++ bytes)) db objects w × (length bytes ≡ size))
  Ensures-whole bytes old n size = record { at = λ w u s h. whole (n == size) refl w u s h }
    where
      whole :
          (t : Bool)
          → (n == size) ≡ t
          → (w : World e) (u : Unit {0})
          → Staged {e = e} path (some (old ++ bytes)) db objects w × (length bytes ≡ n)
          → (refuse_if (not t) short w).0 ≡ ok u
          → Staged {e = e} path (some (old ++ bytes)) db objects (refuse_if (not t) short w).1
            × (length bytes ≡ size)
      whole true eq w u s h = (s.0, s.1 ∙ eq_of_true n size eq)
      whole false eq w u s h = absurd (cc h)

-- A chunk that is staged stands behind the bytes that the session has: the file is what it was, cut or
-- filled up with zero bytes to the session's size, and then as many bytes of the body as
-- the range says, no fewer. The tables and the object store are as before.
pub stage_chunk-Staged :
    {e : Env} (session : UploadSession) (size : ℕ) (body : List ℕ) (w : World e) (u : Unit {0})
    → (stage_chunk session size body w).0 ≡ ok u
    → let path = upload_session_path session.id in
      let chunk = limit_reader body size in
      Staged path
        (some (truncated session.size (or_empty (w.staging path)) ++ chunk))
        w.db
        w.objects
        (stage_chunk session size body w).1
      × (length chunk ≡ size)
unfolding stage_chunk open_staging truncate_staging
stage_chunk-Staged {e} session size body w u h =
    let path : Text = upload_session_path session.id in
    let old : Option (List ℕ) = w.staging path in
    let kept : List ℕ = truncated session.size (or_empty old) in
    let chunk : List ℕ = limit_reader body size in
    (Ensures-bind _ _ _ _ (Ensures-or_fail _ _ _ (Ensures-proceed old)) λ _.
        Ensures-bind _ _ _ _ (Ensures-or_fail _ _ _ (Ensures-with_file (λ b. b) old)) λ _.
          Ensures-bind _ _ _ _
            (Ensures-or_fail _ _ _
              (Ensures-with_file (truncated session.size) (some (or_empty old))))
            λ _. Ensures-bind _ _ _ _ (Ensures-or_fail _ _ _ (Ensures-proceed (some kept))) λ _.
              Ensures-bind _ _ _ _ (Ensures-or_fail _ _ _ (Ensures-copy_to chunk kept)) λ n.
                Ensures-bind _ _ _ _ (Ensures-or_fail _ _ _ (Ensures-written chunk kept n))
                  λ _. Ensures-whole chunk kept n size).at
      w u (record { staged = refl; tables = refl; stored = refl }) h
