-- ===== src/Auth/Management.antt =====
-- auth/user_management.go, without what it prints.
use den_kit_stash.Base.{String, Bool, true, false, Option, none, some, if◌then◌else◌}
use den_kit_stash.Model.{User, Role, is_empty}
use den_kit_stash.World.{Env, Action, Error, failure, ◌>>=◌, ◌>>◌, pure, raise, attempt, ◌or_fail◌}
use den_kit_stash.Database.Users.{get_user_by_username, create_user, update_user}
use den_kit_stash.Auth.{generate_api_key}

-- A user as `&models.User{...}` makes one.
abbrev pub new_user : String → Role → String → User
new_user username role api_key = record {
  id = 0;
  username = username;
  display_name = username;
  api_key = api_key;
  role = role;
  is_active = true;
  created_at = 0;
  updated_at = 0;
}

abbrev pub same : Bool → Bool → Bool
same true b = b
same false true = false
same false false = true

module _ {e : Env} where
  abbrev register : Option User → String → Role → Action e Error User
  register (some u) username role = raise (failure "user already exists")
  register none username role = do
    api_key ← generate_api_key or_fail failure "failed to generate API key"
    create_user (new_user username role api_key) or_fail failure "failed to create user"

  -- auth.CreateUser
  unfoldable pub register_user : String → Role → Action e Error User
  register_user username role = do
    existing ← attempt (get_user_by_username username)
    register existing username role

  abbrev key_or_new : String → Action e Error String
  key_or_new api_key =
      if is_empty api_key
      then generate_api_key or_fail failure "failed to generate API key"
      else pure api_key

  abbrev ensure : Option User → String → Role → String → Action e Error User
  ensure (some u) username role api_key = do
    let updated = record u {
      display_name = username;
      api_key = api_key;
      role = role;
      is_active = true;
    }
    update_user updated or_fail failure "failed to update user"
    pure updated
  ensure none username role api_key =
      create_user (new_user username role api_key) or_fail failure "failed to create user"

  -- EnsureUser
  unfoldable pub ensure_user : String → Role → String → Action e Error User
  ensure_user username role given = do
    api_key ← key_or_new given
    existing ← attempt (get_user_by_username username)
    ensure existing username role api_key

  abbrev pub toggle : Bool → User → Bool → Action e Error Unit
  toggle true u is_active = pure tt
  toggle false u is_active =
      update_user (record u { is_active = is_active }) or_fail failure "failed to update user"

  -- setUserActive
  unfoldable pub set_user_active : String → Bool → Action e Error Unit
  set_user_active username is_active = do
    u ← get_user_by_username username or_fail failure "user not found"
    toggle (same u.is_active is_active) u is_active
