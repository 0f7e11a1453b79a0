-- ===== src/Database/Users.antt =====
-- models/api_keys.go, and the queries of models/postgres.go on users.
use Prim.Native.String.{◌++◌, compare}
use text.Mathlib.Text.{starts_with, is_le}
use den_kit_stash.Base.{
  ℕ, String, ◌==◌, number_eq, text_eq, Bool, true, false, not, ◌&&◌, ◌||◌, List, if◌then◌else◌,
  find, any,
}
use den_kit_stash.Model.{User, Role, blank, user, is_empty}
use den_kit_stash.World.{
  Env, Action, Error, failure, ok, err, Result, lift, ◌>>=◌, query, query_row, exec,
}
use den_kit_stash.World.Tables.{Db, insert, modify, order_by}

abbrev pub api_key_digest_prefix : String
api_key_digest_prefix = "hmac-sha256:"

-- IsAPIKeyDigest
unfoldable pub is_api_key_digest : String → Bool
is_api_key_digest value = starts_with value api_key_digest_prefix

abbrev api_key_hash_secret_env : String
api_key_hash_secret_env = "DENKIT_API_KEY_HASH_SECRET"

-- APIKeyHashSecret
unfoldable pub api_key_hash_secret : Env → Result Error String
api_key_hash_secret e =
    let secret = e.getenv api_key_hash_secret_env in
    if is_empty secret then err (failure "DENKIT_API_KEY_HASH_SECRET is required") else ok secret

abbrev pub digest_with : Env → String → Result Error String → Result Error String
digest_with e api_key (ok secret) = ok (api_key_digest_prefix ++ e.hmac_hex secret api_key)
digest_with e api_key (err x) = err x

-- APIKeyDigest
unfoldable pub api_key_digest : Env → String → Result Error String
unfolding api_key_hash_secret
api_key_digest e api_key =
    if starts_with api_key api_key_digest_prefix
    then ok api_key
    else digest_with e api_key (api_key_hash_secret e)

-- Another row has the username or the key digest.
abbrev pub taken : Db → ℕ → String → String → Bool
taken db id username digest =
    any (λ u. not (u.id == id) && (u.username == username || u.api_key == digest)) db.users.rows

-- `if user.Role == "" { user.Role = "user" }`
abbrev pub default_role : Role → Role
default_role blank = user
default_role r = r

-- CHECK (role IN ('user', 'admin'))
abbrev pub is_allowed_role : Role → Bool
is_allowed_role blank = false
is_allowed_role _ = true

module _ {e : Env} where
  -- GetUserByAPIKey
  unfoldable pub get_user_by_api_key : String → Action e Error User
  get_user_by_api_key api_key = do
    digest ← lift (api_key_digest e api_key)
    query_row (λ db. find (λ u. u.api_key == digest && u.is_active) db.users.rows)

  -- GetUserByUsername
  unfoldable pub get_user_by_username : String → Action e Error User
  get_user_by_username username = query_row (λ db. find (λ u. u.username == username) db.users.rows)

  -- CreateUser; the row that it returns is the argument with its id and times, and keeps the key
  unfoldable pub create_user : User → Action e Error User
  create_user given = do
    digest ← lift (api_key_digest e given.api_key)
    exec (λ db. not (taken db db.users.next_id given.username digest))
        λ now db.
          let row : ℕ → User = λ id. record given {
            id = id;
            role = default_role given.role;
            created_at = now;
            updated_at = now;
          } in
          (
            row db.users.next_id,
            record db { users = insert (λ id. record (row id) { api_key = digest }) db.users },
          )

  -- UpdateUser
  unfoldable pub update_user : User → Action e Error Unit
  update_user given = do
    digest ← lift (api_key_digest e given.api_key)
    exec (λ db. is_allowed_role given.role && not (taken db given.id given.username digest))
        λ now db. (
          tt,
          record db {
            users =
                modify (λ u. u.id == given.id)
                  (λ u. record u {
                    username = given.username;
                    display_name = given.display_name;
                    api_key = digest;
                    role = given.role;
                    is_active = given.is_active;
                    updated_at = now;
                  })
                  db.users;
          },
        )

  -- ListUsers
  unfoldable pub list_users : Action e Error (List User)
  list_users = query (λ db. order_by (λ u v. is_le (compare u.username v.username)) db.users.rows)
