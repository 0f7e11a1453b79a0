-- ===== src/Process/Oauth/Safety.antt =====
-- Whom the development login hands a key to.
use den_kit_stash.Base.{
  ℕ, any, String, ◌≡◌, refl, ◌⊎◌, inl, inr, true, Option, none, some, ◌==◌, text_eq, eq_of_true,
  Bool-cases, Option-cases, subst, sym, ap, ◌∙◌,
}
use den_kit_stash.Model.{User, Role, is_empty}
use den_kit_stash.World.{Env, World, Error, replace, err, ◌or_fail◌, pure}
use den_kit_stash.World.Laws.{Result-cases, bind-err}
use den_kit_stash.World.Reads.{Untouched-call}
use den_kit_stash.Http.{Response, problem, found, respond}
use den_kit_stash.Auth.{generate_api_key, create_test_user}
use den_kit_stash.Database.Integrity.{IsValid}
use den_kit_stash.Database.Integrity.Conflict.{create_user_taken}
use den_kit_stash.Process.Oauth.{
  Urls, is_loopback, only_local, parse_dev_oauth_redirect_uri, authorize, dev_oauth_redirect_url,
  dev_oauth_handler,
}

module _ (urls : Urls) where
  only_local-some :
      (o : Option urls.Url) (url : urls.Url)
      → only_local urls o ≡ some url
      → (o ≡ some url) × (urls.scheme url ≡ "http") × (is_loopback urls url ≡ true)
  only_local-some none url h = absurd (cc h)
  only_local-some (some a) url h = elim (Bool-cases (urls.scheme a == "http")) [
    | inl http ↦ elim (Bool-cases (is_loopback urls a)) [
      | inl local ↦
          let same : a ≡ url = (let h' = rw (http, local) at h in cc h') in
          subst
            (λ u.
              (◌≡◌ {A = Option urls.Url} (some a) (some u))
              × (urls.scheme u ≡ "http")
              × (is_loopback urls u ≡ true))
            same (refl, eq_of_true _ _ http, local)
      | inr remote ↦ absurd (let h' = rw (http, remote) at h in cc h')
    ]
    | inr other ↦ absurd (let h' = rw other at h in cc h')
  ]

-- The development login answers an error, before any call and without a change, unless the client is
-- `butler` and the address to redirect to is an `http` URL of this machine; then it goes on to create
-- the test user.
pub dev_oauth_handler_local :
    (urls : Urls) {e : Env} {B : Type 0} (client_id redirect_uri : String) (w : World e)
    → ((n : ℕ) × (message : String) × (dev_oauth_handler urls {B = B} client_id redirect_uri w
          ≡ (err (problem n message), w)))
      ⊎ ((client_id ≡ "butler")
          × (url : urls.Url) × (urls.parse redirect_uri ≡ some url)
          × (urls.scheme url ≡ "http")
          × (is_loopback urls url ≡ true)
          × (dev_oauth_handler urls {B = B} client_id redirect_uri w ≡ authorize urls url w))
unfolding dev_oauth_handler parse_dev_oauth_redirect_uri
dev_oauth_handler_local urls client_id redirect_uri w = elim (Bool-cases (client_id == "butler")) [
  | inr other ↦ inl (400, "Invalid client_id", rw other)
  | inl butler ↦ elim (Bool-cases (is_empty redirect_uri)) [
    | inl missing ↦ inl (400, "Missing redirect_uri", rw (butler, missing))
    | inr given ↦ elim (Option-cases (only_local urls (urls.parse redirect_uri))) [
      | inl no_url ↦ inl (400, "Invalid redirect_uri", rw (butler, given, no_url))
      | inr (url, found_url) ↦
          let (parsed, http, local) =
            only_local-some urls (urls.parse redirect_uri) url found_url in
          inr (
            eq_of_true client_id "butler" butler,
            url,
            parsed,
            http,
            local,
            rw (butler, given, found_url),
          )
    ]
  ]
]

drawn : {e : Env} (w : World e) → (generate_api_key w).1.db ≡ w.db
unfolding generate_api_key
drawn w =
    let h =
      (Untouched-call {db = w.db} {objects = w.objects} _).at w
        (record { tables = refl; stored = refl }) in
    h.tables

-- The key that is drawn for the user does not touch the tables.
create_test_user_taken :
    {e : Env} (w : World e)
    → IsValid w.db
    → any (λ u. u.username == "testuser") w.db.users.rows ≡ true
    → ((x : Error) × ((create_test_user "testuser" w).0 ≡ err x))
      × ((create_test_user "testuser" w).1.db ≡ w.db)
unfolding create_test_user
create_test_user_taken {e} w h used = elim (Result-cases (generate_api_key w).0) [
  | inr (x, no_key) ↦ rw no_key ((x, refl), drawn w)
  | inl (key, given) ↦
      let user : User = record {
        id = 0;
        username = "testuser";
        display_name = "testuser";
        api_key = key;
        role = Role.blank;
        is_active = true;
        created_at = 0;
        updated_at = 0;
      } in
      let w' : World e = (generate_api_key w).1 in
      let (failed, kept) = create_user_taken user w' (subst IsValid (sym (drawn w)) h) (
        subst (λ db. any (λ u. u.username == "testuser") db.users.rows ≡ true) (sym (drawn w))
          used) in
      rw given (failed, kept ∙ drawn w)
]

-- Where valid tables have a user `testuser` already, as after a first login, the development login
-- answers every request with an error, and leaves the tables alone.
pub dev_oauth_handler_again :
    (urls : Urls) {e : Env} {B : Type 0} (client_id redirect_uri : String) (w : World e)
    → IsValid w.db
    → any (λ u. u.username == "testuser") w.db.users.rows ≡ true
    → let r = respond (dev_oauth_handler urls {B = B} client_id redirect_uri) w in
      ((n : ℕ) × (message : String) × (r.0 ≡ problem n message)) × (r.1.db ≡ w.db)
dev_oauth_handler_again urls {B} client_id redirect_uri w h used =
    elim (dev_oauth_handler_local urls {B = B} client_id redirect_uri w) [
      | inl (n, message, same) ↦ rw same ((n, message, refl), refl)
      | inr (_, url, _, _, _, same) ↦
          let ((x, failed), kept) = create_test_user_taken w h used in
          let stopped =
            bind-err {E = Response B} {B = Response B}
              (create_test_user "testuser" or_fail problem 500 "OAuth test user unavailable")
              (λ user. pure (found (dev_oauth_redirect_url urls url user.api_key))) w _
              (ap (λ r. replace r (problem 500 "OAuth test user unavailable")) failed) in
          rw (same, stopped) ((500, "OAuth test user unavailable", refl), kept)
    ]
