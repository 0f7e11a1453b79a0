-- ===== src/World.antt =====
-- What a request can reach: the database, the object store, the upload-session files, and calls out
-- of the process that may fail. A handler is an action on this world; what it wrote before it fails
-- stays written.
pub mod Tables
pub mod Laws
pub mod Keeps
pub mod Reads
pub mod Ensures
pub mod Outcomes
pub mod Order
use den_kit_stash.Base.{ℕ, suc, ◌+◌, String, Bool, true, false, Option, none, some, List, Text}
use Tables.{Db}

-- An outside call is answered, refused before it has an effect, or has its effect and loses the
-- answer.
pub data Outcome : Type 0 where
  answered refused unanswered : Outcome

-- What is not the program's own: the object store, whether each outside call works out, the clock
-- at each call, whether an advisory lock is free, the texts that `uuid.New` and `rand.Read` give,
-- the environment's variables, HMAC-SHA256, which runes Go's `unicode` calls letters or digits, how
-- a time is written, and the wharf library and archivers,
-- which turn trees into bytes and back.
pub record Env : Type 1 where
  -- the object store
  pub Objects : Type 0
  pub head : Objects → Text → Option ℕ
  pub get : Objects → Text → Option (List ℕ)
  pub put : Objects → Text → List ℕ → ℕ → Objects
  pub delete : Objects → Text → Objects
  pub presign_get : Text → Text → Text
  pub presign_put : Text → Text
  -- the process and its machine
  pub outcome : ℕ → Outcome
  pub now : ℕ → ℕ
  pub uuid : ℕ → Text
  pub lock_free : ℕ → Bool
  pub random_hex : ℕ → Option String
  pub getenv : String → String
  pub hmac_hex : String → String → String
  pub is_letter_or_digit : ℕ → Bool
  pub format_rfc3339 : ℕ → Text
  -- directory trees, the wharf library and the archivers
  pub Tree : Type 0
  pub Container : Type 0
  pub empty_tree : Tree
  pub empty_container : Container
  pub ensure_equal : Container → Container → Bool
  pub read_signature : List ℕ → Option Container
  pub patch_target : List ℕ → Option Container
  pub patch_source : List ℕ → Option Container
  pub apply_patch : List ℕ → Tree → Option Tree
  pub read_metadata : Tree → Option (Text × Text)
  pub top_level_entries : Tree → List Text
  pub compress_zip : Tree → Option (List ℕ)
  pub extract_zip : List ℕ → Option Tree
  pub tar_create : Text → List Text → Tree → Option (List ℕ)
  pub tar_extract : Text → List ℕ → Option Tree

-- `calls` counts the outside calls made so far.
pub record World (e : Env) : Type 0 where
  pub db : Db
  pub objects : e.Objects
  pub staging : Text → Option (List ℕ)
  pub calls : ℕ

-- An `error` of Go: `sql.ErrNoRows` and a missing object, a failed call,
-- a violated UNIQUE or REFERENCES clause, or one made by `fmt.Errorf`.
pub data Error : Type 0 where
  no_rows unavailable constraint : Error
  failure : String → Error

pub data Result (E A : Type 0) : Type 0 where
  ok : A → Result E A
  err : E → Result E A

abbrev pub Action : Env → Type 0 → Type 0 → Type 0
Action e E A = World e → Result E A × World e

module _ {E A : Type 0} where
  abbrev pub replace : {F : Type 0} → Result E A → F → Result F A
  replace (ok a) x = ok a
  replace (err y) x = err x

  abbrev pub to_option : Result E A → Option A
  to_option (ok a) = some a
  to_option (err y) = none

  abbrev pub from_option : E → Option A → Result E A
  from_option x none = err x
  from_option x (some a) = ok a

module _ {e : Env} {E A : Type 0} where
  abbrev pub pure : A → Action e E A
  pure a w = (ok a, w)

  abbrev pub raise : E → Action e E A
  raise x w = (err x, w)

  abbrev pub lift : Result E A → Action e E A
  lift r w = (r, w)

  abbrev pub gets : (World e → A) → Action e E A
  gets f w = (ok (f w), w)

  abbrev pub continue : {B : Type 0} → Result E A → (A → Action e E B) → Action e E B
  continue (ok a) f w = f a w
  continue (err x) f w = (err x, w)

-- time.Now
abbrev pub time_now : {e : Env} {E : Type 0} → Action e E ℕ
time_now {e} w = (ok (e.now w.calls), w)

module _ {e : Env} {E A B : Type 0} where
  infixl 5 ◌>>=◌ ◌>>◌
  abbrev pub ◌>>=◌ : Action e E A → (A → Action e E B) → Action e E B
  ◌>>=◌ m f w = let r = m w in continue r.0 f r.1

  abbrev pub ◌>>◌ : Action e E A → Action e E B → Action e E B
  m >> n = m >>= λ _. n

module _ {e : Env} {E F A : Type 0} where
  -- `if err != nil { return x }`
  infixl 6 ◌or_fail◌
  abbrev pub ◌or_fail◌ : Action e E A → F → Action e F A
  ◌or_fail◌ m x w = let r = m w in (replace r.0 x, r.1)

  -- The caller looks at the error and goes on.
  abbrev pub attempt : Action e E A → Action e F (Option A)
  attempt m w = let r = m w in (ok (to_option r.0), r.1)

module _ {e : Env} {E A : Type 0} where
  -- `defer after()`: whatever `m` gives, `after` runs then, and its error is dropped.
  infixl 6 ◌then_always◌
  abbrev pub ◌then_always◌ : Action e E A → Action e Error (Unit {0}) → Action e E A
  ◌then_always◌ m after w = let r = m w in (r.0, (after r.1).1)

module _ {e : Env} {A : Type 0} where
  abbrev pub answer : Outcome → Action e Error A → Action e Error A
  answer answered op w = op w
  answer refused op w = (err unavailable, w)
  answer unanswered op w = (err unavailable, (op w).1)

  -- One call to the database or to the object store.
  unfoldable pub call : Action e Error A → Action e Error A
  call op w = answer (e.outcome w.calls) op (record w { calls = suc w.calls })

  -- A SELECT of many rows, and of one.
  unfoldable pub query : (Db → A) → Action e Error A
  unfolding call
  query f = call (λ w. (ok (f w.db), w))

  unfoldable pub query_row : (Db → Option A) → Action e Error A
  unfolding call
  query_row f = call (λ w. (from_option no_rows (f w.db), w))

  abbrev pub checked : Bool → A × World e → World e → Result Error A × World e
  checked true r w = (ok r.0, r.1)
  checked false r w = (err constraint, w)

  -- An INSERT or UPDATE at the time of the call; it fails as a whole where a constraint does not hold.
  unfoldable pub exec : (Db → Bool) → (ℕ → Db → A × Db) → Action e Error A
  unfolding call
  exec allowed f =
      call
        λ w. let r = f (e.now w.calls) w.db in checked (allowed w.db) (r.0, record w { db = r.1 }) w
