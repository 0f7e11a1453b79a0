-- ===== src/Database/Integrity/Accounts.antt =====
-- The statements on users and channels keep the tables valid.
use den_kit_stash.Base.{
  Eq, eq_refl, eq_of_true, Bool-cases, ◌≡◌, refl, sym, ◌∙◌, inl, inr, true, ◌==◌, number_eq,
  text_eq, codes_eq, and_true, not-true, subst,
}
use den_kit_stash.Model.{User, Channel, UploadSession}
use den_kit_stash.World.{Env}
use den_kit_stash.World.Keeps.{Keeps, Keeps-bind, Keeps-lift}
use den_kit_stash.Database.Users.{create_user, update_user, is_allowed_role}
use den_kit_stash.Database.Builds.{has_upload}
use den_kit_stash.Database.Channels.{create_channel, update_channel}
use den_kit_stash.Database.Sessions.{has_build_file, create_upload_session, update_upload_session}
use den_kit_stash.Database.Integrity.{same_user, same_channel, same_session}
use den_kit_stash.Database.Integrity.Keeps.{
  users-IsValid, channels-IsValid, upload_sessions-IsValid,
}
use den_kit_stash.Database.Integrity.Rows.{
  insert-IsAscending, modify-IsAscending, below, All-append, All-modify, any-append, any-modify,
  any-none, insert-IsUnique, free-All, modify-IsUnique, keep-IsUnique,
}
use den_kit_stash.Database.Integrity.Exec.{Valid, exec-Valid}

eq_sym : {A : Type 0} ⦃q : Eq A⦄ (a b : A) → (a == b) ≡ (b == a)
eq_sym a b = elim (Bool-cases (a == b)) [
  | inl same ↦ subst (λ c. (a == c) ≡ (c == a)) (eq_of_true a b same) refl
  | inr other ↦ elim (Bool-cases (b == a)) [
    | inl same ↦ absurd (let back = rw (eq_of_true b a same) at other in cc (eq_refl a, back))
    | inr other' ↦ other ∙ sym other'
  ]
]

channel_sym : (c d : Channel) → same_channel c d ≡ same_channel d c
channel_sym c d = cc (eq_sym c.name d.name, eq_sym c.upload_id d.upload_id)

user_sym : (u v : User) → same_user u v ≡ same_user v u
user_sym u v = cc (eq_sym u.username v.username, eq_sym u.api_key v.api_key)

module _ {e : Env} where
  pub create_channel-Valid : (given : Channel) → Keeps {e = e} Valid (create_channel given)
  unfolding create_channel
  create_channel-Valid given = exec-Valid _ _ λ now db allowed h.
      let (upload, free) = and_true (has_upload db given.upload_id) _ allowed in
      channels-IsValid db h _
        (insert-IsAscending (λ c. c.id) 1 db.channels.next_id db.channels.rows _ refl
          h.channel_keys)
        (insert-IsUnique (λ c. c.id) same_channel db.channels.rows _
          (free-All (λ c. c.id) same_channel db.channels.next_id given db.channels.rows
            (any-none _ db.channels.rows (not-true _ free))
            (below (λ c. c.id) 1 db.channels.next_id db.channels.rows h.channel_keys))
          h.unique_channels)
        (All-append (λ c. has_upload db c.upload_id ≡ true) db.channels.rows _ h.channel_uploads
          upload)

  pub update_channel-Valid : (given : Channel) → Keeps {e = e} Valid (update_channel given)
  unfolding update_channel
  update_channel-Valid given = exec-Valid _ _ λ now db allowed h.
      let (upload, free) = and_true (has_upload db given.upload_id) _ allowed in
      let f : Channel → Channel =
        λ c. record given { id = c.id; created_at = c.created_at; updated_at = now } in
      channels-IsValid db h _
        (modify-IsAscending (λ c. c.id) _ _ (λ c. refl) 1 db.channels.next_id db.channels.rows
          h.channel_keys)
        (modify-IsUnique (λ c. c.id) same_channel given.id given f (λ c d. channel_sym given d)
          (λ c d. refl) 1 db.channels.next_id db.channels.rows h.channel_keys
          (any-none _ db.channels.rows (not-true _ free)) h.unique_channels)
        (All-modify (λ c. has_upload db c.upload_id ≡ true) (λ c. c.id == given.id) f
          db.channels.rows (λ c old. upload) h.channel_uploads)

  pub create_user-Valid : (given : User) → Keeps {e = e} Valid (create_user given)
  unfolding create_user
  create_user-Valid given = Keeps-bind _ _ (Keeps-lift _) λ digest. exec-Valid _ _ λ now db free h.
      users-IsValid db h _
        (insert-IsAscending (λ u. u.id) 1 db.users.next_id db.users.rows _ refl h.user_keys)
        (λ id. any-append (λ u. u.id == id) db.users.rows _)
        (insert-IsUnique (λ u. u.id) same_user db.users.rows _
          (free-All (λ u. u.id) same_user db.users.next_id (record given { api_key = digest })
            db.users.rows (any-none _ db.users.rows (not-true _ free))
            (below (λ u. u.id) 1 db.users.next_id db.users.rows h.user_keys))
          h.unique_users)

  pub update_user-Valid : (given : User) → Keeps {e = e} Valid (update_user given)
  unfolding update_user
  update_user-Valid given = Keeps-bind _ _ (Keeps-lift _) λ digest.
      exec-Valid _ _ λ now db allowed h.
        let (_, free) = and_true (is_allowed_role given.role) _ allowed in
        let f : User → User = λ u. record u {
          username = given.username;
          display_name = given.display_name;
          api_key = digest;
          role = given.role;
          is_active = given.is_active;
          updated_at = now;
        } in
        users-IsValid db h _
          (modify-IsAscending (λ u. u.id) (λ u. u.id == given.id) f (λ u. refl) 1 db.users.next_id
            db.users.rows h.user_keys)
          (λ id held.
            any-modify (λ u. u.id == id) (λ u. u.id == given.id) f db.users.rows (λ u. refl) ∙ held)
          (modify-IsUnique (λ u. u.id) same_user given.id (record given { api_key = digest }) f
            (λ u v. user_sym (record given { api_key = digest }) v) (λ u v. refl) 1 db.users.next_id
            db.users.rows h.user_keys (any-none _ db.users.rows (not-true _ free)) h.unique_users)

  pub create_upload_session-Valid :
      (given : UploadSession) → Keeps {e = e} Valid (create_upload_session given)
  unfolding create_upload_session
  create_upload_session-Valid given = exec-Valid _ _ λ now db allowed h.
      let (file, free) = and_true (has_build_file db given.build_file_id) _ allowed in
      upload_sessions-IsValid db h _
        (insert-IsUnique (λ s. 0) same_session db.upload_sessions.rows _
          (any-none (λ s. s.id == given.id) db.upload_sessions.rows (not-true _ free))
          h.unique_sessions)
        (All-append (λ s. has_build_file db s.build_file_id ≡ true) db.upload_sessions.rows _
          h.session_files file)

  pub update_upload_session-Valid :
      (given : UploadSession) → Keeps {e = e} Valid (update_upload_session given)
  unfolding update_upload_session
  update_upload_session-Valid given = exec-Valid _ _ λ now db file h.
      let f : UploadSession → UploadSession =
        λ s. record given { id = s.id; created_at = s.created_at; updated_at = now } in
      upload_sessions-IsValid db h _
        (keep-IsUnique same_session (λ s. s.id == given.id) f (λ s t. refl) (λ s t. refl)
          db.upload_sessions.rows h.unique_sessions)
        (All-modify (λ s. has_build_file db s.build_file_id ≡ true) (λ s. s.id == given.id) f
          db.upload_sessions.rows (λ s old. file) h.session_files)
