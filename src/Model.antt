-- ===== src/Model.antt =====
-- models/models.go: the rows of the database. Ids, sizes and times are non-negative numbers; a
-- nullable column is an `Option`. A state that the code writes from string constants is an enum.
use den_kit_stash.Base.{ℕ, String, Bool, true, false, Option, Text, ◌==◌, text_eq}

-- `blank` is the empty text, which `CreateUser` replaces by `user`.
pub data Role : Type 0 where
  blank user admin : Role

pub record User : Type 0 where
  pub id : ℕ
  pub username : String
  pub display_name : String
  pub api_key : String
  pub role : Role
  pub is_active : Bool
  pub created_at : ℕ
  pub updated_at : ℕ

pub record Game : Type 0 where
  pub id : ℕ
  pub user_id : ℕ
  pub title : String
  pub short_text : String
  pub type : String
  pub classification : String
  pub url : String
  pub created_at : ℕ
  pub updated_at : ℕ

pub record Upload : Type 0 where
  pub id : ℕ
  pub game_id : ℕ
  pub filename : Text
  pub display_name : Text
  pub size : ℕ
  pub storage : String
  pub type : String
  pub platforms : String
  pub created_at : ℕ
  pub updated_at : ℕ

pub data BuildState : Type 0 where
  started processing completed failed : BuildState

pub record Build : Type 0 where
  pub id : ℕ
  pub upload_id : ℕ
  pub user_version : String
  pub channel_name : String
  pub parent_build_id : Option ℕ
  pub state : BuildState
  pub created_at : ℕ
  pub updated_at : ℕ

pub data FileState : Type 0 where
  uploading uploaded failed rebuilding evicted : FileState

pub record BuildFile : Type 0 where
  pub id : ℕ
  pub build_id : ℕ
  pub type : String
  pub sub_type : String
  pub size : ℕ
  pub state : FileState
  pub storage_path : Text
  pub upload_url : Text
  pub last_accessed_at : ℕ
  pub evicted_at : Option ℕ
  pub created_at : ℕ
  pub updated_at : ℕ

pub record Channel : Type 0 where
  pub id : ℕ
  pub name : String
  pub upload_id : ℕ
  pub current_build_id : Option ℕ
  pub created_at : ℕ
  pub updated_at : ℕ

-- `blank` is the empty text, which `StartUploadSession` tests for.
pub data SessionState : Type 0 where
  blank active completed : SessionState

pub record UploadSession : Type 0 where
  pub id : Text
  pub build_file_id : ℕ
  pub storage_path : Text
  pub size : ℕ
  pub state : SessionState
  pub created_at : ℕ
  pub updated_at : ℕ

abbrev pub is_started : BuildState → Bool
is_started started = true
is_started _ = false

abbrev pub is_processing : BuildState → Bool
is_processing processing = true
is_processing _ = false

abbrev pub is_completed : BuildState → Bool
is_completed completed = true
is_completed _ = false

abbrev pub is_uploaded : FileState → Bool
is_uploaded uploaded = true
is_uploaded _ = false

abbrev pub is_failed : FileState → Bool
is_failed failed = true
is_failed _ = false

abbrev pub is_evicted : FileState → Bool
is_evicted evicted = true
is_evicted _ = false

abbrev pub is_empty : String → Bool
is_empty s = s == ""

-- (*User).IsAdmin
unfoldable pub is_admin : User → Bool
is_admin u = elim u.role [ Role.admin ↦ true | _ ↦ false ]

-- (*User).CanAccessNamespace
unfoldable pub can_access_namespace : User → String → Bool
unfolding is_admin
can_access_namespace u namespace = elim (is_admin u) [
  | true ↦ true
  | false ↦ u.username == namespace
]
