-- ===== src/Auth.antt =====
-- auth/auth.go and auth/context.go: who a request comes from. A request's user is an `Option`, none
-- where the context has no user.
pub mod Keys
pub mod Accounts
pub mod Management
pub mod Deactivated
use text.Mathlib.Text.{starts_with}
use Prim.Native.String.{slice, len}
use den_kit_stash.Base.{ℕ, String, Bool, true, false, Option, none, some, if◌then◌else◌}
use den_kit_stash.Model.{User, blank, is_empty}
use den_kit_stash.World.{
  Env, World, Action, Error, failure, Result, ok, err, ◌>>=◌, pure, attempt, call, from_option,
  lift,
}
use den_kit_stash.Http.{Handler, Response, problem}
use den_kit_stash.Database.Users.{get_user_by_api_key, create_user}

-- What `extractAPIKey` reads of a request.
pub record Credentials : Type 0 where
  pub authorization : String
  pub query_api_key : String
  pub query_access_token : String

abbrev pub bearer : String
bearer = "Bearer "

abbrev pub access_token : String
access_token = "access_token="

-- strings.TrimPrefix
abbrev pub trim_prefix : String → String → String
trim_prefix s prefix = if starts_with s prefix then slice s (len prefix) (len s) else s

-- extractAPIKey
unfoldable pub extract_api_key : Credentials → String
extract_api_key r =
    if is_empty r.authorization
    then (if is_empty r.query_api_key
        then trim_prefix r.query_access_token access_token
        else trim_prefix r.query_api_key access_token)
    else if starts_with r.authorization bearer
    then trim_prefix r.authorization bearer
    else trim_prefix r.authorization access_token

module _ {e : Env} {B : Type 0} where
  -- AuthMiddleware
  unfoldable pub auth_middleware :
      Credentials → (User → Handler e B (Response B)) → Handler e B (Response B)
  unfolding extract_api_key
  auth_middleware r next =
      let api_key = extract_api_key r in
      if is_empty api_key then pure (problem 401 "missing api_key") else (do
        found ← attempt (get_user_by_api_key api_key)
        elim found [ none ↦ pure (problem 401 "invalid api_key") | some u ↦ next u ])

  -- OptionalAuthMiddleware
  unfoldable pub optional_auth_middleware :
      Credentials → (Option User → Handler e B (Response B)) → Handler e B (Response B)
  unfolding extract_api_key
  optional_auth_middleware r next =
      let api_key = extract_api_key r in
      if is_empty api_key
      then next none
      else (do found ← attempt (get_user_by_api_key api_key); next found)

module _ {e : Env} where
  -- GenerateAPIKey
  unfoldable pub generate_api_key : Action e Error String
  generate_api_key = call (λ w. (from_option (failure "no random bytes") (e.random_hex w.calls), w))

  -- CreateTestUser
  unfoldable pub create_test_user : String → Action e Error User
  create_test_user username = do
    api_key ← generate_api_key
    create_user (record {
      id = 0;
      username = username;
      display_name = username;
      api_key = api_key;
      role = blank;
      is_active = true;
      created_at = 0;
      updated_at = 0;
    })
