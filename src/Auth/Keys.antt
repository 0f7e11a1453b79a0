-- ===== src/Auth/Keys.antt =====
-- What authentication guarantees, and what it accepts.
use Prim.Native.String.{◌++◌}
use text.Mathlib.Text.{starts_with}
use text.Mathlib.TextPositions.{starts_with-append, slice-append_right, len-append}
use text.Mathlib.TextLemmas.{append-eq-nil_iff}
use den_kit_stash.Base.{
  String, ◌≡◌, refl, ◌⊎◌, inl, inr, true, false, arith, Bool-cases, text_iff, text_eq, ◌==◌,
  find-passes, IsRow, find-IsRow, and_true, eq_of_true, subst, sym, ap, ◌∙◌,
}
use den_kit_stash.Model.{User, is_empty}
use den_kit_stash.World.{Env, World, Error, Result, ok, err}
use den_kit_stash.World.Laws.{query_row-ok, query_row-world, Result-cases, ticked}
use den_kit_stash.Http.{Handler, Response, problem}
use den_kit_stash.Database.Users.{
  api_key_digest, api_key_digest_prefix, api_key_hash_secret, get_user_by_api_key, digest_with,
}
use den_kit_stash.Auth.{Credentials, extract_api_key, auth_middleware, bearer}

digest_with-prefix :
    (e : Env) (k d : String) (r : Result Error String)
    → digest_with e k r ≡ ok d
    → starts_with d api_key_digest_prefix ≡ true
digest_with-prefix e k d (ok secret) h =
    let made : api_key_digest_prefix ++ e.hmac_hex secret k ≡ d = ground arith in
    ap (λ t. starts_with t api_key_digest_prefix) (sym made)
    ∙ starts_with-append api_key_digest_prefix (e.hmac_hex secret k)
digest_with-prefix e k d (err x) h = cc

digest-prefix :
    (e : Env) (k d : String)
    → api_key_digest e k ≡ ok d
    → starts_with d api_key_digest_prefix ≡ true
unfolding api_key_digest
digest-prefix e k d h = elim (Bool-cases (starts_with k api_key_digest_prefix)) [
  | inl p ↦
      let kept : ◌≡◌ {A = Result Error String} (ok k) (ok d) = rw p at h in
      let same : k ≡ d = cc in subst (λ t. starts_with t api_key_digest_prefix ≡ true) same p
  | inr n ↦ digest_with-prefix e k d (api_key_hash_secret e) (rw n at h)
]

-- A digest has the prefix, and is its own digest.
api_key_digest_fixed :
    (e : Env) (k d : String) → api_key_digest e k ≡ ok d → api_key_digest e d ≡ ok d
api_key_digest_fixed e k d h = let p = digest-prefix e k d h in unfold api_key_digest in rw p

-- The digest that the database stores for a key is itself accepted as a key: the query that it
-- makes, its answer and the world after it are those of the key.
pub stored_digest_authenticates :
    {e : Env} (key digest : String) (w : World e)
    → api_key_digest e key ≡ ok digest
    → get_user_by_api_key digest w ≡ get_user_by_api_key key w
stored_digest_authenticates {e} key digest w h =
    let again = api_key_digest_fixed e key digest h in unfold get_user_by_api_key in rw (again, h)

bearer-not-empty : (key : String) → is_empty (bearer ++ key) ≡ false
bearer-not-empty key = elim (Bool-cases (is_empty (bearer ++ key))) [
  | inl h ↦ let e = append-eq-nil_iff.0 ((text_iff (bearer ++ key) "").0 h) in cc e.0
  | inr h ↦ h
]

-- A key in an `Authorization: Bearer` header is the one that is used, whatever the query holds.
pub bearer_key :
    (key api_key access_token : String)
    → extract_api_key (record {
      authorization = bearer ++ key;
      query_api_key = api_key;
      query_access_token = access_token;
    })
      ≡ key
unfolding extract_api_key
bearer_key key api_key access_token =
    rw (bearer-not-empty key, starts_with-append bearer key, len-append bearer key)
      (slice-append_right bearer key)

-- A key that finds a user finds an active row of the table whose stored key is its digest, with one
-- call.
get_user_by_api_key-ok :
    {e : Env} (key : String) (w : World e) (u : User)
    → (get_user_by_api_key key w).0 ≡ ok u
    → IsRow u w.db.users.rows
      × (u.is_active ≡ true)
      × (api_key_digest e key ≡ ok u.api_key)
      × ((get_user_by_api_key key w).1 ≡ ticked w)
unfolding get_user_by_api_key
get_user_by_api_key-ok {e} key w u h = by_digest (api_key_digest e key) refl
  where
    by_digest :
        (r : Result Error String)
        → api_key_digest e key ≡ r
        → IsRow u w.db.users.rows
          × (u.is_active ≡ true)
          × (api_key_digest e key ≡ ok u.api_key)
          × ((get_user_by_api_key key w).1 ≡ ticked w)
    by_digest (err x) eq = absurd (let bad = rw eq at h in cc bad)
    by_digest (ok d) eq =
        let row = query_row-ok _ w u (rw eq at h) in
        let found = find-passes _ w.db.users.rows u row in
        let (same, active) = and_true (u.api_key == d) u.is_active found in
        (
          find-IsRow _ w.db.users.rows u row,
          active,
          eq ∙ ap ok (sym (eq_of_true u.api_key d same)),
          rw eq (query_row-world _ w),
        )

-- The outcome of a request that is let in only as a known user: it is a refusal with status 401, or
-- what follows did run, behind one call that changed nothing, as an active user who is a row of the
-- table and whose stored key is the digest of the key of the request.
abbrev pub IsKnown :
    {e : Env} {B : Type 0}
    → Credentials
    → (User → Handler e B (Response B))
    → Result (Response B) (Response B) × World e
    → World e
    → Type 0
IsKnown {e} r next outcome w =
    ((outcome.0 ≡ ok (problem 401 "missing api_key"))
      ⊎ (outcome.0 ≡ ok (problem 401 "invalid api_key")))
    ⊎ ((u : User) × (outcome ≡ next u (ticked w))
        × IsRow u w.db.users.rows
        × (u.is_active ≡ true)
        × (api_key_digest e (extract_api_key r) ≡ ok u.api_key))

-- A request goes on only as an active user in the table whose stored key is the digest of the key that
-- it presents, with tables and object store as they were; otherwise it is refused with status
-- 401.
pub auth_middleware_sound :
    {e : Env} {B : Type 0} (r : Credentials) (next : User → Handler e B (Response B)) (w : World e)
    → IsKnown r next (auth_middleware r next w) w
unfolding auth_middleware
auth_middleware_sound {e} {B} r next w = elim (Bool-cases (is_empty (extract_api_key r))) [
  | inl h ↦ inl (inl (rw h))
  | inr h ↦ elim (Result-cases (get_user_by_api_key (extract_api_key r) w).0) [
    | inl (u, eq) ↦
        let (row, active, digest, one_call) = get_user_by_api_key-ok (extract_api_key r) w u eq in
        inr (u, rw (h, eq, one_call), row, active, digest)
    | inr (x, eq) ↦ inl (inr (rw (h, eq)))
  ]
]
