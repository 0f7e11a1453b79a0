-- ===== src/Upload/Session/Held.antt =====
-- A session's row and its staged file, in a world.
use den_kit_stash.Base.{
  ℕ, String, ◌≡◌, refl, ap, Text, Option, some, List, [], ◌∷◌, ◌++◌, find, take, length, ◌==◌,
  codes_eq, number_eq, eq_refl, take-append,
}
use den_kit_stash.Model.{UploadSession}
use den_kit_stash.World.{Env, World}
use den_kit_stash.Http.{Response, problem}
use den_kit_stash.Upload.Session.{upload_session_path, write_file}
use den_kit_stash.Upload.Session.Transfer.{IsStaged}

-- The row of a session in the tables.
abbrev pub InDb : {e : Env} → UploadSession → World e → Type 0
InDb session w = find (λ s. s.id == session.id) w.db.upload_sessions.rows ≡ some session

-- The session's row is as it was, and its file holds exactly these bytes.
abbrev pub Holds : {e : Env} → UploadSession → List ℕ → World e → Type 0
Holds session bytes w = InDb session w × (w.staging (upload_session_path session.id) ≡ some bytes)

abbrev pub Begins : {e : Env} → UploadSession → List ℕ → World e → Type 0
Begins session bytes w = InDb session w × IsStaged session.id bytes w

pub Holds-Begins :
    {e : Env} (session : UploadSession) (bytes more : List ℕ) (w : World e)
    → Holds session (bytes ++ more) w
    → Begins session bytes w
Holds-Begins session bytes more w (row, file) = (row, rw file (take-append bytes more))

pub take-whole : (xs : List ℕ) → take (length xs) xs ≡ xs
take-whole [] = refl
take-whole (x ∷ xs) = ap (◌∷◌ x) (take-whole xs)

pub write_file-same :
    (files : Text → Option (List ℕ)) (path : Text) (bytes : List ℕ)
    → write_file files path bytes path ≡ some bytes
write_file-same files path bytes = rw (eq_refl path)

-- The error is one that `writeError` sends.
abbrev pub IsProblem : Response (Unit {0}) → Type 0
IsProblem x = (n : ℕ) × (message : String) × (x ≡ problem n message)
