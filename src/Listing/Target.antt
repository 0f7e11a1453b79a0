-- ===== src/Listing/Target.antt =====
-- `resolveTargetGame` of handlers/wharf_channels.go.
use den_kit_stash.Base.{ℕ, String, Bool, true, false, ◌==◌, text_eq, List}
use den_kit_stash.Model.{User, Game}
use den_kit_stash.World.{Env, ◌>>=◌, ◌>>◌, pure, lift, from_option, ◌or_fail◌}
use den_kit_stash.Http.{Handler, problem}
use den_kit_stash.Database.Users.{get_user_by_username}
use den_kit_stash.Database.Projects.{get_game_by_user_and_title}
use den_kit_stash.Build.Access.{refuse_if, validate_namespace_access}
use den_kit_stash.Build.Create.{is_missing, two_parts}

module _ {e : Env} {B : Type 0} where
  -- The owner of the namespace: the user, or another one.
  abbrev pub namespace_owner : User → String → Bool → Handler e B ℕ
  namespace_owner user username true = pure user.id
  namespace_owner user username false = do
    owner ← get_user_by_username username or_fail problem 404 "target user not found"
    pure owner.id

  abbrev pub namespace_game : User → String × String → Handler e B Game
  namespace_game user parts = do
    owner_id ← namespace_owner user parts.0 (user.username == parts.0)
    get_game_by_user_and_title owner_id parts.1 or_fail problem 404 "game not found"

  -- resolveTargetGame; the target is what `strings.Split(target, "/")` makes of it
  unfoldable pub resolve_target_game : User → List String → Handler e B Game
  resolve_target_game user target = do
    refuse_if (is_missing target) (problem 400 "missing build target")
    parts ← lift (
        from_option (problem 400 "invalid target format, expected username/gamename")
          (two_parts target))
    validate_namespace_access user parts.0 or_fail problem 403 "access denied"
    namespace_game user parts
