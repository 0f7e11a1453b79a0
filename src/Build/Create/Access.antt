-- ===== src/Build/Create/Access.antt =====
-- Who may push, and who may list the channels of a game.
use den_kit_stash.Base.{String, ◌≡◌, ◌⊎◌, true, some, List}
use den_kit_stash.Model.{User, can_access_namespace}
use den_kit_stash.World.{Env, World, ◌>>=◌, ◌or_fail◌, lift, from_option}
use den_kit_stash.Http.{Response, Handler, problem}
use den_kit_stash.Build.Access.{decoded, decode_request, refuse_if, validate_namespace_access}
use den_kit_stash.Build.Access.Guard.{
  IsRefused, guard_refuse, guard_option, guard_namespace, guard_first,
}
use den_kit_stash.Build.Create.{
  CreateBuildRequest, is_missing, two_parts, upload_for, push_target, create_build_handler,
}
use den_kit_stash.Listing.Target.{namespace_game, resolve_target_game}

-- The target names a game in a namespace that the user can access.
abbrev pub IsOwnTarget : User → List String → Type 0
IsOwnTarget user target =
    (parts : String × String) × (two_parts target ≡ some parts)
    × (can_access_namespace user parts.0 ≡ true)

module _ {e : Env} {B A : Type 0} (user : User) (target : List String)
    (missing invalid : Response B) (rest : String × String → Handler e B A) where
  abbrev behind_access : String × String → Handler e B A
  behind_access parts =
      validate_namespace_access user parts.0 or_fail problem 403 "access denied" >>= λ _. rest parts

  abbrev behind_target : Unit {0} → Handler e B A
  behind_target _ = lift (from_option invalid (two_parts target)) >>= behind_access

  guard_target :
      (w : World e)
      → IsRefused (refuse_if (is_missing target) missing >>= behind_target) w
        ⊎ IsOwnTarget user target
  guard_target w =
      guard_refuse (IsOwnTarget user target) (is_missing target) missing behind_target w (
        guard_option (IsOwnTarget user target) (two_parts target) invalid behind_access w
          λ parts two.
            guard_namespace (IsOwnTarget user target) user parts.0 (problem 403 "access denied")
              (λ _. rest parts) w λ allowed. (parts, two, allowed))

push_target-IsOwnTarget :
    {e : Env} {B : Type 0} (user : User) (r : CreateBuildRequest) (w : World e)
    → IsRefused (push_target {B = B} user r) w ⊎ IsOwnTarget user r.target
unfolding push_target
push_target-IsOwnTarget user r w = guard_target user r.target _ _ (upload_for r) w

-- `CreateBuild` refuses a request and changes neither a table nor the object store, and
-- `resolveTargetGame` refuses a target, unless the target is `username/game` with a namespace that the
-- user can access.
pub create_build_handler-IsOwnTarget :
    {e : Env} {B : Type 0} (user : User) (r : CreateBuildRequest) (w : World e)
    → (IsRefused (create_build_handler user (decoded r)) w ⊎ IsOwnTarget user r.target)
      × (IsRefused (resolve_target_game {B = B} user r.target) w ⊎ IsOwnTarget user r.target)
unfolding create_build_handler decode_request resolve_target_game
create_build_handler-IsOwnTarget user r w = (
  guard_first _ (push_target user r) _ w (push_target-IsOwnTarget user r w),
  guard_target user r.target _ _ (namespace_game user) w,
)
