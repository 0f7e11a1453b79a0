-- ===== src/Process/Commands.antt =====
-- The commands of main.go: one of the flags, or the server.
use den_kit_stash.Base.{
  String, Text, Bool, true, false, not, ◌&&◌, ◌||◌, List, [], ◌∷◌, ◌++◌, codes, starts_with,
  if◌then◌else◌,
}
use den_kit_stash.Model.{user, admin, is_empty}
use den_kit_stash.World.{Env, Action, Error, ◌>>◌, pure}
use den_kit_stash.Database.Users.{list_users}
use den_kit_stash.Auth.Management.{register_user, ensure_user, set_user_active}

-- The flags, but for the port.
pub record Flags : Type 0 where
  pub create_user : String
  pub create_admin : String
  pub ensure_user : String
  pub ensure_admin : String
  pub api_key : String
  pub list_users : Bool
  pub deactivate_user : String
  pub activate_user : String

-- What the process does: it has run a command, and exits with 0, or it serves.
pub data Finish : Type 0 where
  exits serves : Finish

module _ {e : Env} where
  abbrev then_exit : {A : Type 0} → Action e Error A → Action e Error Finish
  then_exit m = do m; pure exits

  -- main, from the flags on; an error is `log.Fatalf`
  unfoldable pub run_command : Flags → Action e Error Finish
  run_command f =
      if not (is_empty f.create_user)
      then then_exit (register_user f.create_user user)
      else if not (is_empty f.create_admin)
      then then_exit (register_user f.create_admin admin)
      else if not (is_empty f.ensure_user)
      then then_exit (ensure_user f.ensure_user user f.api_key)
      else if not (is_empty f.ensure_admin)
      then then_exit (ensure_user f.ensure_admin admin f.api_key)
      else if f.list_users
      then then_exit list_users
      else if not (is_empty f.deactivate_user)
      then then_exit (set_user_active f.deactivate_user false)
      else if not (is_empty f.activate_user)
      then then_exit (set_user_active f.activate_user true)
      else pure serves

-- The entries of the temporary directory that cleanStaleScratchDirs removes: each is a name, and
-- whether it is a directory.
abbrev is_stale : Text × Bool → Bool
is_stale (name, is_dir) =
    is_dir
    && (starts_with name (codes "denkit-build-") || starts_with name (codes "denkit-rebuild-"))

unfoldable pub clean_stale_scratch_dirs : Text → List (Text × Bool) → List Text
clean_stale_scratch_dirs temp_dir [] = []
clean_stale_scratch_dirs temp_dir (entry ∷ rest) =
    let others = clean_stale_scratch_dirs temp_dir rest in
    if is_stale entry then (temp_dir ++ codes "/" ++ entry.0) ∷ others else others
