-- ===== src/Upload/Session/Transfer.antt =====
-- An upload session as its client sees it: the bytes that have been received, up to the end.
use den_kit_stash.Base.{
  ℕ, zero, suc, ◌≡◌, refl, sym, ap, Text, Bool, true, false, some, List, [], ◌∷◌, ◌++◌, find, take,
  length, ◌==◌, codes_eq, Bool-cases, inl, inr,
}
use den_kit_stash.Model.{UploadSession}
use den_kit_stash.World.{Env, World}
use den_kit_stash.World.Tables.{Db, modify_rows}
use den_kit_stash.Http.{Response, status, resume}
use den_kit_stash.Upload.Session.{upload_session_path, or_empty, is_done, resume_range}

pub data Transfer : Type 0 where
  receiving finished : List ℕ → Transfer

abbrev pub received : Transfer → List ℕ
received (receiving bytes) = bytes
received (finished bytes) = bytes

-- What a request with this body may do: nothing, add bytes from the front of its body, or finish.
pub data Step (body : List ℕ) : Transfer → Transfer → Type 0 where
  stay : (t : Transfer) → Step body t t
  add : (n : ℕ) (bytes : List ℕ) → Step body (receiving bytes) (receiving (bytes ++ take n body))
  finish : (n : ℕ) (bytes : List ℕ) → Step body (receiving bytes) (finished (bytes ++ take n body))

-- A sequence of requests with these bodies.
pub data Steps : List (List ℕ) → Transfer → Transfer → Type 0 where
  no_steps : (t : Transfer) → Steps [] t t
  then_steps :
      (body : List ℕ) (bodies : List (List ℕ)) (t t' t'' : Transfer)
      → Step body t t'
      → Steps bodies t' t''
      → Steps (body ∷ bodies) t t''

abbrev IsFinished : Transfer → Type 0
IsFinished (receiving bytes) = ⊥
IsFinished (finished bytes) = Unit

-- What an answer says is so: status 200 that the transfer is finished, and a range that it goes on
-- where the bytes that are received end.
abbrev pub Tells : Response (Unit {0}) → Transfer → Type 0
Tells (status n) t = IsFinished t
Tells (resume last) (receiving bytes) =
    ◌≡◌ {A = Response (Unit {0})} (resume last) (resume_range (length bytes))
Tells (resume last) (finished bytes) = ⊥
Tells _ t = Unit

-- The row of the session, as far as it is done.
abbrev pub HasRow : Text → Text → Bool → List ℕ → Db → Type 0
HasRow id path done bytes db =
    (session : UploadSession) × (find (λ s. s.id == id) db.upload_sessions.rows ≡ some session)
    × (session.storage_path ≡ path)
    × (session.size ≡ length bytes)
    × (is_done session.state ≡ done)

-- The bytes have been put into the object store, from the front of a file.
abbrev pub HasPut : (e : Env) → Text → List ℕ → e.Objects → Type 0
HasPut e path bytes objects =
    (before : e.Objects) × (file : List ℕ) × (objects ≡ e.put before path file (length bytes))
    × (take (length bytes) file ≡ bytes)

-- The file of the session begins with the bytes.
abbrev pub IsStaged : {e : Env} → Text → List ℕ → World e → Type 0
IsStaged id bytes w = take (length bytes) (or_empty (w.staging (upload_session_path id))) ≡ bytes

abbrev pub Represents : {e : Env} → Text → Text → Transfer → World e → Type 0
Represents id path (receiving bytes) w = HasRow id path false bytes w.db × IsStaged id bytes w
Represents {e} id path (finished bytes) w =
    HasRow id path true bytes w.db × HasPut e path bytes w.objects

-- The request has made a step, and its answer tells of it.
abbrev pub Reached :
    {e : Env} → Text → Text → List ℕ → Transfer → Response (Unit {0}) → World e → Type 0
Reached id path body t x w = (t' : Transfer) × Step body t t' × Represents id path t' w × Tells x t'

pub Tells-resume_range :
    (n : ℕ) (bytes : List ℕ) → n ≡ length bytes → Tells (resume_range n) (receiving bytes)
Tells-resume_range zero bytes h = ap (λ k. resume_range k) h
Tells-resume_range (suc n) bytes h = ap (λ k. resume_range k) h

-- Cutting what begins with the bytes gives the bytes.
pub take-front :
    {A : Type 0} (bytes xs ys : List A)
    → take (length bytes) xs ≡ bytes
    → take (length bytes) (xs ++ ys) ≡ bytes
take-front [] xs ys h = refl
take-front (b ∷ bytes) [] ys h = absurd (cc h)
take-front (b ∷ bytes) (x ∷ xs) ys h = cc (take-front bytes xs ys (cc h), h)

pub append-empty : {A : Type 0} (xs : List A) → xs ++ [] ≡ xs
append-empty [] = refl
append-empty (x ∷ xs) = ap (◌∷◌ x) (append-empty xs)

-- An UPDATE of the row that a search finds.
pub find-modify_rows :
    {A : Type 0} (p q : A → Bool) (f : A → A)
    → ((a : A) → p a ≡ q a)
    → ((a : A) → p a ≡ true → p (f a) ≡ true)
    → (rows : List A) (a : A) → find p rows ≡ some a
    → find p (modify_rows q f rows) ≡ some (f a)
find-modify_rows p q f same kept [] a h = absurd (cc h)
find-modify_rows p q f same kept (x ∷ rows) a h = elim (Bool-cases (p x)) [
  | inl hit ↦
      let here : x ≡ a = (let h' = rw hit at h in cc h') in rw (sym (same x), hit, kept x hit, here)
  | inr miss ↦
      let h' = rw miss at h in
      let rest : find p (x ∷ modify_rows q f rows) ≡ some (f a) =
        (rw miss (find-modify_rows p q f same kept rows a h')) in
      rw (sym (same x), miss) rest
]
