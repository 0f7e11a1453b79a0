-- ===== src/Listing/Channels.antt =====
-- The listings of handlers/wharf_channels.go.
use den_kit_stash.Base.{
  ℕ, String, true, ◌==◌, text_eq, Option, none, some, List, [], ◌∷◌, map, if◌then◌else◌,
}
use den_kit_stash.Model.{User, Upload, Build, BuildFile, Channel, is_empty}
use den_kit_stash.World.{Env, ◌>>=◌, ◌>>◌, pure, attempt, ◌or_fail◌}
use den_kit_stash.Http.{Response, Handler, json, problem}
use den_kit_stash.Database.Projects.{get_uploads_by_game_id}
use den_kit_stash.Database.Channels.{get_channels_by_upload_id, get_channel_by_name}
use den_kit_stash.Database.Builds.{
  get_build_by_id, get_builds_by_game_and_channel, get_latest_completed_build,
}
use den_kit_stash.Database.Files.{get_build_files_by_build_id}
use den_kit_stash.Build.Access.{refuse_if}
use den_kit_stash.Serialize.{
  WharfChannelResponse, CoreBuildResponse, new_wharf_channel_response, new_core_build_response,
}
use den_kit_stash.Listing.Target.{resolve_target_game}

-- A Go map from names: what is written later replaces what has the same name.
abbrev pub put_channel :
    List WharfChannelResponse → WharfChannelResponse → List WharfChannelResponse
put_channel [] c = c ∷ []
put_channel (x ∷ xs) c =
    let rest = put_channel xs c in if x.name == c.name then c ∷ xs else x ∷ rest

abbrev or_no_files : Option (List BuildFile) → List BuildFile
or_no_files none = []
or_no_files (some files) = files

-- What a channel adds; one whose head cannot be read adds nothing.
abbrev listed :
    (e : Env)
    → Upload
    → Channel
    → List WharfChannelResponse
    → Option Build × List BuildFile
    → Option ℕ
    → List WharfChannelResponse
listed e upload channel acc (none, files) (some id) = acc
listed e upload channel acc (head, files) _ =
    put_channel acc (new_wharf_channel_response e channel upload head files)

module _ {e : Env} {B : Type 0} where
  -- A build with its files; files that cannot be read are none.
  abbrev with_its_files : Option Build → Handler e B (Option Build × List BuildFile)
  with_its_files none = pure (none, [])
  with_its_files (some build) = do
    files ← attempt (get_build_files_by_build_id build.id)
    pure (some build, or_no_files files)

  -- The head of a channel; none where the channel has no head or its build cannot be read.
  unfoldable pub channel_build : Option ℕ → Handler e B (Option Build × List BuildFile)
  channel_build none = pure (none, [])
  channel_build (some id) = do build ← attempt (get_build_by_id id); with_its_files build

  -- The inner loop of ListChannels: a channel whose head cannot be read is passed over.
  unfoldable pub list_upload_channels :
      Upload → List Channel → List WharfChannelResponse → Handler e B (List WharfChannelResponse)
  list_upload_channels upload [] acc = pure acc
  list_upload_channels upload (channel ∷ rest) acc = do
    head ← channel_build channel.current_build_id
    list_upload_channels upload rest (listed e upload channel acc head channel.current_build_id)

  abbrev upload_channels :
      Upload
      → Option (List Channel)
      → List WharfChannelResponse
      → Handler e B (List WharfChannelResponse)
  upload_channels upload none acc = pure acc
  upload_channels upload (some channels) acc = list_upload_channels upload channels acc

  -- The outer loop of ListChannels
  unfoldable pub list_all_channels :
      List Upload → List WharfChannelResponse → Handler e B (List WharfChannelResponse)
  list_all_channels [] acc = pure acc
  list_all_channels (upload ∷ rest) acc = do
    channels ← attempt (get_channels_by_upload_id upload.id)
    acc' ← upload_channels upload channels acc
    list_all_channels rest acc'

  -- The loop of GetChannel: the first upload that has the channel.
  unfoldable pub first_channel : String → List Upload → Handler e B (Option (Upload × Channel))
  first_channel name [] = pure none
  first_channel name (upload ∷ rest) = do
    found ← attempt (get_channel_by_name name upload.id)
    elim found [ none ↦ first_channel name rest | some channel ↦ pure (some (upload, channel)) ]

module _ {e : Env} where
  -- ListChannels
  unfoldable pub list_channels :
      User
      → List String
      → Handler e (List WharfChannelResponse) (Response (List WharfChannelResponse))
  list_channels user target = do
    game ← resolve_target_game user target
    uploads ← get_uploads_by_game_id game.id or_fail problem 500 "failed to get uploads"
    channels ← list_all_channels uploads []
    pure (json channels)

  abbrev answer_channel :
      Option (Upload × Channel) → Handler e WharfChannelResponse (Response WharfChannelResponse)
  answer_channel none = pure (problem 404 "channel not found")
  answer_channel (some (upload, channel)) = do
    head ← channel_build channel.current_build_id
    pure (json (new_wharf_channel_response e channel upload head.0 head.1))

  -- GetChannel
  unfoldable pub get_channel :
      User → List String → String → Handler e WharfChannelResponse (Response WharfChannelResponse)
  get_channel user target channel_name = do
    game ← resolve_target_game user target
    uploads ← get_uploads_by_game_id game.id or_fail problem 500 "failed to get uploads"
    found ← first_channel channel_name uploads
    answer_channel found

  -- ListBuilds
  unfoldable pub list_builds :
      User
      → List String
      → String
      → Handler e (List CoreBuildResponse) (Response (List CoreBuildResponse))
  list_builds user target channel = do
    refuse_if (is_empty channel) (problem 400 "missing channel")
    game ← resolve_target_game user target
    builds ←
        get_builds_by_game_and_channel game.id channel or_fail problem 500 "failed to get builds"
    pure (json (map (λ b. new_core_build_response e b true) builds))

  -- GetLatestCompletedBuild
  unfoldable pub get_latest_completed :
      User
      → List String
      → String
      → String
      → Handler e CoreBuildResponse (Response CoreBuildResponse)
  get_latest_completed user target channel user_version = do
    refuse_if (is_empty channel) (problem 400 "missing channel")
    refuse_if (is_empty user_version) (problem 400 "missing user_version")
    game ← resolve_target_game user target
    build ←
        get_latest_completed_build game.id channel user_version
        or_fail problem 404 "build not found"
    pure (json (new_core_build_response e build true))
