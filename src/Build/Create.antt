-- ===== src/Build/Create.antt =====
-- `CreateBuild` of handlers/wharf_builds.go.
pub mod Access
use den_kit_stash.Base.{
  ℕ, String, Bool, false, ◌==◌, number_eq, text_eq, codes_eq, Option, none, some, List, [], ◌∷◌,
  ◌++◌, find, codes, if◌then◌else◌,
}
use den_kit_stash.Model.{User, Game, Upload, Build, Channel, started, is_empty}
use den_kit_stash.World.{Env, ◌>>=◌, ◌>>◌, pure, attempt, lift, from_option, ◌or_fail◌}
use den_kit_stash.Http.{Response, Handler, json, problem, internal_error}
use den_kit_stash.Names.Platforms.{channel_name_tokens, platforms_for_tokens}
use den_kit_stash.Database.Users.{get_user_by_username}
use den_kit_stash.Database.Projects.{
  get_games_by_user_id, create_game, get_uploads_by_game_id, create_upload, update_upload,
}
use den_kit_stash.Database.Builds.{create_build}
use den_kit_stash.Database.Channels.{get_channel_by_name, create_channel}
use den_kit_stash.Serialize.{WharfBuildResponse, new_wharf_build_response}
use den_kit_stash.Build.Access.{Decoded, decode_request, refuse_if, validate_namespace_access}

-- CreateBuildRequest; the target is what `strings.Split(target, "/")` makes of it
pub record CreateBuildRequest : Type 0 where
  pub target : List String
  pub channel : String
  pub user_version : String

-- The empty target is split into one empty part.
abbrev pub is_missing : List String → Bool
is_missing (part ∷ []) = is_empty part
is_missing _ = false

-- `username/game`, and nothing else
abbrev pub two_parts : List String → Option (String × String)
two_parts (owner ∷ game ∷ []) = some (owner, game)
two_parts _ = none

abbrev platforms_of : Env → String → String
platforms_of e channel =
    platforms_for_tokens (channel_name_tokens e.is_letter_or_digit (codes channel))

abbrev new_game : ℕ → String → Game
new_game owner_id title = record {
  id = 0;
  user_id = owner_id;
  title = title;
  short_text = "";
  type = "default";
  classification = "game";
  url = "";
  created_at = 0;
  updated_at = 0;
}

abbrev new_upload : ℕ → String → String → Upload
new_upload game_id title platforms = record {
  id = 0;
  game_id = game_id;
  filename = codes title ++ codes ".zip";
  display_name = codes title;
  size = 0;
  storage = "hosted";
  type = "default";
  platforms = platforms;
  created_at = 0;
  updated_at = 0;
}

abbrev new_build : ℕ → CreateBuildRequest → Option ℕ → Build
new_build upload_id r parent = record {
  id = 0;
  upload_id = upload_id;
  user_version = r.user_version;
  channel_name = r.channel;
  parent_build_id = parent;
  state = started;
  created_at = 0;
  updated_at = 0;
}

abbrev new_channel : String → ℕ → Channel
new_channel name upload_id = record {
  id = 0;
  name = name;
  upload_id = upload_id;
  current_build_id = none;
  created_at = 0;
  updated_at = 0;
}

abbrev pub head_of : Option Channel → Option ℕ
head_of none = none
head_of (some channel) = channel.current_build_id

module _ {e : Env} {B : Type 0} where
  abbrev found_game : Option Game → ℕ → String → Handler e B Game
  found_game (some game) owner_id title = pure game
  found_game none owner_id title = create_game (new_game owner_id title) or_fail internal_error

  abbrev with_platforms : Upload → String → Handler e B Upload
  with_platforms upload platforms = if upload.platforms == platforms then pure upload else (do
    let updated = record upload { platforms = platforms }
    update_upload updated or_fail internal_error
    pure updated)

  -- The loop over the game's uploads, up to the first that has the channel.
  unfoldable pub upload_with_channel : String → String → List Upload → Handler e B (Option Upload)
  upload_with_channel channel platforms [] = pure none
  upload_with_channel channel platforms (upload ∷ rest) = do
    found ← attempt (get_channel_by_name channel upload.id)
    elim found [
      | none ↦ upload_with_channel channel platforms rest
      | some _ ↦ do updated ← with_platforms upload platforms; pure (some updated)
    ]

  abbrev found_upload : Option Upload → ℕ → String → String → Handler e B Upload
  found_upload (some upload) game_id title platforms = pure upload
  found_upload none game_id title platforms =
      create_upload (new_upload game_id title platforms) or_fail internal_error

  abbrev ensure_channel : Option Channel → String → ℕ → Handler e B (Unit {0})
  ensure_channel (some channel) name upload_id = pure tt
  ensure_channel none name upload_id = do
    create_channel (new_channel name upload_id) or_fail internal_error
    pure tt

  -- The upload of a game in a namespace: that of the channel, or a new one.
  unfoldable pub upload_for : CreateBuildRequest → String × String → Handler e B Upload
  upload_for r parts = do
    owner ← get_user_by_username parts.0 or_fail problem 404 "namespace owner not found"
    games ← get_games_by_user_id owner.id or_fail internal_error
    game ← found_game (find (λ g. g.title == parts.1) games) owner.id parts.1
    uploads ← get_uploads_by_game_id game.id or_fail internal_error
    existing ← upload_with_channel r.channel (platforms_of e r.channel) uploads
    found_upload existing game.id parts.1 (platforms_of e r.channel)

  -- The upload that a push goes to.
  unfoldable pub push_target : User → CreateBuildRequest → Handler e B Upload
  push_target user r = do
    refuse_if (is_missing r.target) (problem 400 "missing target")
    parts ← lift (from_option (problem 400 "invalid target format") (two_parts r.target))
    validate_namespace_access user parts.0 or_fail problem 403 "access denied"
    upload_for r parts

  -- The build is created as a child of the channel's head, and the channel if it is new.
  unfoldable pub start_build : Upload → CreateBuildRequest → Handler e B Build
  start_build upload r = do
    channel ← attempt (get_channel_by_name r.channel upload.id)
    build ← create_build (new_build upload.id r (head_of channel)) or_fail internal_error
    ensure_channel channel r.channel upload.id
    pure build

module _ {e : Env} where
  -- CreateBuild
  unfoldable pub create_build_handler :
      User → Decoded CreateBuildRequest → Handler e WharfBuildResponse (Response WharfBuildResponse)
  create_build_handler user body = do
    r ← decode_request body
    upload ← push_target user r
    build ← start_build upload r
    pure (json (new_wharf_build_response e build []))
