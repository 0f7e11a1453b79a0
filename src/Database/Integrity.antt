-- ===== src/Database/Integrity.antt =====
-- What the PRIMARY KEY, UNIQUE and REFERENCES clauses of the migration promise of the tables.
pub mod Rows
pub mod Keeps
pub mod Exec
pub mod Projects
pub mod Builds
pub mod Accounts
pub mod Reach
pub mod Statements
pub mod Written
pub mod Writes
pub mod Conflict
use den_kit_stash.Base.{
  ℕ, suc, ◌≤◌, ◌≡◌, String, Bool, true, false, ◌==◌, number_eq, text_eq, codes_eq, ◌||◌, ◌&&◌,
  Option, none, some, List, [], ◌∷◌, All,
}
use den_kit_stash.Model.{User, Game, Upload, Build, BuildFile, Channel, UploadSession}
use den_kit_stash.World.Tables.{Db, Table}
use den_kit_stash.Database.Projects.{has_user, has_game}
use den_kit_stash.Database.Builds.{has_upload, has_build, refers}
use den_kit_stash.Database.Sessions.{has_build_file}

-- The ids of the rows grow, from `low` on, and stay below the next one.
abbrev pub IsAscending : {R : Type 0} → (R → ℕ) → ℕ → List R → ℕ → Type 0
IsAscending id low [] next = low ≤ next
IsAscending id low (r ∷ rs) next = (low ≤ id r) × IsAscending id (suc (id r)) rs next

abbrev pub HasKeys : {R : Type 0} → (R → ℕ) → Table R → Type 0
HasKeys id t = IsAscending id 1 t.rows t.next_id

-- No row clashes with a later one.
abbrev pub IsUnique : {R : Type 0} → (R → R → Bool) → List R → Type 0
IsUnique clash [] = Unit
IsUnique clash (r ∷ rs) = All (λ s. clash r s ≡ false) rs × IsUnique clash rs

-- UNIQUE on the username and on the key of a user, and on the name of an upload's channel
abbrev pub same_user : User → User → Bool
same_user u v = u.username == v.username || u.api_key == v.api_key

abbrev pub same_channel : Channel → Channel → Bool
same_channel c d = c.name == d.name && c.upload_id == d.upload_id

abbrev pub same_session : UploadSession → UploadSession → Bool
same_session s t = s.id == t.id

pub record IsValid (db : Db) : Type 0 where
  pub user_keys : HasKeys (λ u. u.id) db.users
  pub game_keys : HasKeys (λ g. g.id) db.games
  pub upload_keys : HasKeys (λ u. u.id) db.uploads
  pub build_keys : HasKeys (λ b. b.id) db.builds
  pub file_keys : HasKeys (λ f. f.id) db.build_files
  pub channel_keys : HasKeys (λ c. c.id) db.channels
  pub unique_users : IsUnique same_user db.users.rows
  pub unique_channels : IsUnique same_channel db.channels.rows
  pub unique_sessions : IsUnique same_session db.upload_sessions.rows
  pub game_users : All (λ g. has_user db g.user_id ≡ true) db.games.rows
  pub upload_games : All (λ u. has_game db u.game_id ≡ true) db.uploads.rows
  pub build_uploads : All (λ b. has_upload db b.upload_id ≡ true) db.builds.rows
  pub build_parents : All (λ b. refers (has_build db) b.parent_build_id ≡ true) db.builds.rows
  pub file_builds : All (λ f. has_build db f.build_id ≡ true) db.build_files.rows
  pub channel_uploads : All (λ c. has_upload db c.upload_id ≡ true) db.channels.rows
  pub session_files : All (λ s. has_build_file db s.build_file_id ≡ true) db.upload_sessions.rows
