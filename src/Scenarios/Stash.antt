-- ===== src/Scenarios/Stash.antt =====
-- A small stash: three builds of one channel, with their files, in an environment where every call
-- is answered. Its store is a function from paths to bytes.
use den_kit_stash.Base.{
  ℕ, ◌+◌, String, Text, true, Option, none, some, List, [], ◌∷◌, codes, codes_eq, ◌==◌,
  if◌then◌else◌, length, ◌++◌,
}
use den_kit_stash.Model.{
  User, Role, Game, Upload, Build, BuildState, BuildFile, FileState, UploadSession, SessionState,
}
use den_kit_stash.World.{Env, World, answered}
use den_kit_stash.World.Tables.{Db, Table, empty_db}

abbrev Store : Type 0
Store = Text → Option (List ℕ)

abbrev stored_size : Option (List ℕ) → Option ℕ
stored_size none = none
stored_size (some bytes) = some (length bytes)

abbrev pub stash_env : Env
stash_env = record {
  Objects = Store;
  head = λ store path. stored_size (store path);
  get = λ store path. store path;
  put = λ store path bytes size other. if path == other then some bytes else store other;
  delete = λ store path other. if path == other then none else store other;
  presign_get = λ path name. path;
  presign_put = λ path. path;
  outcome = λ n. answered;
  now = λ n. n + 1000;
  uuid = λ n. codes "uuid";
  lock_free = λ n. true;
  random_hex = λ n. some "00ff";
  getenv = λ name. "secret";
  hmac_hex = λ secret key. "5ec2e7";
  is_letter_or_digit = λ c. true;
  format_rfc3339 = λ t. codes "2026-01-01T00:00:00Z";
  Tree = List ℕ;
  Container = List ℕ;
  empty_tree = [];
  empty_container = [];
  ensure_equal = λ a b. a == b;
  read_signature = λ bytes. some bytes;
  patch_target = λ bytes. some bytes;
  patch_source = λ bytes. some bytes;
  apply_patch = λ bytes tree. some (tree ++ bytes);
  read_metadata = λ tree. none;
  top_level_entries = λ tree. codes "game" ∷ [];
  compress_zip = λ tree. some tree;
  extract_zip = λ bytes. some bytes;
  tar_create = λ format names tree. some tree;
  tar_extract = λ format bytes. some bytes;
}

abbrev pub stash_user : User
stash_user = record {
  id = 1;
  username = "ada";
  display_name = "Ada";
  api_key = "hmac-sha256:5ec2e7";
  role = Role.user;
  is_active = true;
  created_at = 0;
  updated_at = 0;
}

abbrev pub stash_build : ℕ → Option ℕ → BuildState → Build
stash_build id parent state = record {
  id = id;
  upload_id = 1;
  user_version = "1.0";
  channel_name = "linux";
  parent_build_id = parent;
  state = state;
  created_at = 0;
  updated_at = 0;
}

abbrev pub stash_file : ℕ → ℕ → String → BuildFile
stash_file id build_id kind = record {
  id = id;
  build_id = build_id;
  type = kind;
  sub_type = "default";
  size = 3;
  state = FileState.uploaded;
  storage_path = codes "builds/file";
  upload_url = [];
  last_accessed_at = 5;
  evicted_at = none;
  created_at = 0;
  updated_at = 0;
}

abbrev pub stash_session : ℕ → SessionState → UploadSession
stash_session size state = record {
  id = codes "session";
  build_file_id = 1;
  storage_path = codes "builds/file";
  size = size;
  state = state;
  created_at = 0;
  updated_at = 0;
}

abbrev pub rows : {R : Type 0} → List R → Table R
rows rs = record { next_id = 100; rows = rs }

abbrev pub first_build : Build
first_build = stash_build 1 none BuildState.completed

abbrev pub second_build : Build
second_build = stash_build 2 (some 1) BuildState.completed

-- The build that no one has claimed yet, and its files.
abbrev pub open_build : Build
open_build = stash_build 3 (some 2) BuildState.started

abbrev pub open_files : List BuildFile
open_files = stash_file 7 3 "patch" ∷ stash_file 8 3 "signature" ∷ stash_file 9 3 "archive" ∷ []

abbrev pub stash_db : Db
stash_db = record empty_db {
  users = rows (stash_user ∷ []);
  builds = rows (first_build ∷ second_build ∷ open_build ∷ []);
  build_files = rows (
      stash_file 1 1 "patch"
      ∷ stash_file 2 1 "signature"
      ∷ stash_file 3 1 "archive"
      ∷ stash_file 4 2 "patch"
      ∷ stash_file 5 2 "signature"
      ∷ open_files);
  upload_sessions = rows (stash_session 40 SessionState.completed ∷ []);
}

abbrev pub stash : World stash_env
stash = record {
  db = stash_db;
  objects = λ path. some (1 ∷ 2 ∷ 3 ∷ []);
  staging = λ path. none;
  calls = 0;
}

-- Tables in which every reference holds: a game of a test user, with one build, its patch and an
-- upload session.
abbrev pub test_user : User
test_user = record stash_user { username = "testuser"; display_name = "testuser" }

abbrev pub stash_game : Game
stash_game = record {
  id = 1;
  user_id = 1;
  title = "game";
  short_text = "";
  type = "default";
  classification = "game";
  url = "";
  created_at = 0;
  updated_at = 0;
}

abbrev pub stash_upload : Upload
stash_upload = record {
  id = 1;
  game_id = 1;
  filename = codes "game.zip";
  display_name = codes "game";
  size = 0;
  storage = "hosted";
  type = "default";
  platforms = "[]";
  created_at = 0;
  updated_at = 0;
}

abbrev pub game_db : Db
game_db = record empty_db {
  users = rows (test_user ∷ []);
  games = rows (stash_game ∷ []);
  uploads = rows (stash_upload ∷ []);
  builds = rows (first_build ∷ []);
  build_files = rows (stash_file 1 1 "patch" ∷ []);
  upload_sessions = rows (stash_session 1 SessionState.active ∷ []);
}

-- One byte of the session is staged.
abbrev pub game_world : World stash_env
game_world = record stash {
  db = game_db;
  staging = λ path. if path == codes "storage/upload-sessions/session" then some (7 ∷ []) else none;
}
