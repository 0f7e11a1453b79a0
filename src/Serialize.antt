-- ===== src/Serialize.antt =====
-- The bodies of the answers: handlers/serializers.go with the types of handlers/responses.go. A state
-- stays the enum that it is in the row.
use den_kit_stash.Base.{
  ℕ, String, Text, Bool, Option, none, some, List, [], map, ◌==◌, number_eq, if◌then◌else◌,
}
use den_kit_stash.Model.{User, Upload, Build, BuildState, BuildFile, FileState, Channel}
use den_kit_stash.World.{Env}

-- formatTime; the time 0 is Go's zero time, which a row has before it is stored
unfoldable pub format_time : Env → ℕ → Text
format_time e t = if t == 0 then [] else e.format_rfc3339 t

pub record PublicUserResponse : Type 0 where
  pub id : ℕ
  pub username : String
  pub display_name : String

pub record GameResponse : Type 0 where
  pub id : ℕ
  pub title : String
  pub short_text : String
  pub type : String
  pub classification : String
  pub url : String
  pub user : PublicUserResponse

pub record ProfileGameResponse : Type 0 where
  pub id : ℕ
  pub user_id : ℕ
  pub title : String
  pub short_text : String
  pub type : String
  pub classification : String
  pub url : String
  pub created_at : ℕ
  pub updated_at : ℕ

pub record CoreUploadResponse : Type 0 where
  pub id : ℕ
  pub filename : Text
  pub display_name : Text
  pub size : ℕ
  pub storage : String
  pub type : String
  pub platforms : String

pub record CoreBuildResponse : Type 0 where
  pub id : ℕ
  pub upload_id : ℕ
  pub user_version : String
  pub state : BuildState
  pub parent_build_id : Option ℕ
  pub created_at : Text

pub record WharfBuildFileResponse : Type 0 where
  pub id : ℕ
  pub size : ℕ
  pub state : FileState
  pub type : String
  pub sub_type : String
  pub created_at : Text
  pub updated_at : Text

pub record WharfBuildResponse : Type 0 where
  pub id : ℕ
  pub upload_id : ℕ
  pub parent_build_id : ℕ
  pub parent_build : Option ℕ
  pub version : ℕ
  pub state : BuildState
  pub user_version : String
  pub files : List WharfBuildFileResponse
  pub created_at : Text
  pub updated_at : Text

pub record WharfChannelResponse : Type 0 where
  pub name : String
  pub upload_id : ℕ
  pub head : Option WharfBuildResponse

-- What is sent of a user; the key is not.
unfoldable pub new_public_user_response : User → PublicUserResponse
new_public_user_response u = record {
  id = u.id;
  username = u.username;
  display_name = u.display_name;
}

-- newWharfBuildFileResponse
unfoldable pub new_wharf_build_file_response : Env → BuildFile → WharfBuildFileResponse
unfolding format_time
new_wharf_build_file_response e file = record {
  id = file.id;
  size = file.size;
  state = file.state;
  type = file.type;
  sub_type = file.sub_type;
  created_at = format_time e file.created_at;
  updated_at = format_time e file.updated_at;
}

-- newWharfBuildFileResponses
unfoldable pub new_wharf_build_file_responses : Env → List BuildFile → List WharfBuildFileResponse
unfolding new_wharf_build_file_response
new_wharf_build_file_responses e files = map (new_wharf_build_file_response e) files

abbrev or_zero : Option ℕ → ℕ
or_zero none = 0
or_zero (some id) = id

-- newWharfBuildResponse; the parent's object has its id alone
unfoldable pub new_wharf_build_response : Env → Build → List BuildFile → WharfBuildResponse
unfolding format_time new_wharf_build_file_responses
new_wharf_build_response e build files = record {
  id = build.id;
  upload_id = build.upload_id;
  parent_build_id = or_zero build.parent_build_id;
  parent_build = build.parent_build_id;
  version = build.id;
  state = build.state;
  user_version = build.user_version;
  files = new_wharf_build_file_responses e files;
  created_at = format_time e build.created_at;
  updated_at = format_time e build.updated_at;
}

-- newCoreUploadResponse
unfoldable pub new_core_upload_response : Upload → CoreUploadResponse
new_core_upload_response upload = record {
  id = upload.id;
  filename = upload.filename;
  display_name = upload.display_name;
  size = upload.size;
  storage = upload.storage;
  type = upload.type;
  platforms = upload.platforms;
}

-- newCoreBuildResponse
unfoldable pub new_core_build_response : Env → Build → Bool → CoreBuildResponse
unfolding format_time
new_core_build_response e build include_upload_id = record {
  id = build.id;
  upload_id = if include_upload_id then build.upload_id else 0;
  user_version = build.user_version;
  state = build.state;
  parent_build_id = build.parent_build_id;
  created_at = format_time e build.created_at;
}

abbrev head_response : Env → Option Build → List BuildFile → Option WharfBuildResponse
head_response e none files = none
head_response e (some build) files = some (new_wharf_build_response e build files)

-- newWharfChannelResponse
unfoldable pub new_wharf_channel_response :
    Env → Channel → Upload → Option Build → List BuildFile → WharfChannelResponse
unfolding new_wharf_build_response
new_wharf_channel_response e channel upload head files = record {
  name = channel.name;
  upload_id = upload.id;
  head = head_response e head files;
}
