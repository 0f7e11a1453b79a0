-- ===== src/Database/Integrity/Projects.antt =====
-- The statements on games and uploads keep the tables valid.
use den_kit_stash.Base.{◌≡◌, refl, ◌∙◌, Bool, true, ◌==◌, number_eq, text_eq, codes_eq}
use den_kit_stash.Model.{Game, Upload}
use den_kit_stash.World.{Env}
use den_kit_stash.World.Tables.{modify}
use den_kit_stash.World.Keeps.{Keeps}
use den_kit_stash.Database.Projects.{has_user, has_game, create_game, create_upload, update_upload}
use den_kit_stash.Database.Integrity.Keeps.{games-IsValid, uploads-IsValid}
use den_kit_stash.Database.Integrity.Rows.{
  insert-IsAscending, modify-IsAscending, All-append, All-modify, any-append, any-modify,
}
use den_kit_stash.Database.Integrity.Exec.{Valid, exec-Valid}

module _ {e : Env} where
  pub create_game-Valid : (given : Game) → Keeps {e = e} Valid (create_game given)
  unfolding create_game
  create_game-Valid given = exec-Valid _ _ λ now db allowed h.
      games-IsValid db h _
        (insert-IsAscending (λ g. g.id) 1 db.games.next_id db.games.rows _ refl h.game_keys)
        (λ id. any-append (λ g. g.id == id) db.games.rows _)
        (All-append (λ g. has_user db g.user_id ≡ true) db.games.rows _ h.game_users allowed)

  pub create_upload-Valid : (given : Upload) → Keeps {e = e} Valid (create_upload given)
  unfolding create_upload
  create_upload-Valid given = exec-Valid _ _ λ now db allowed h.
      uploads-IsValid db h _
        (insert-IsAscending (λ u. u.id) 1 db.uploads.next_id db.uploads.rows _ refl h.upload_keys)
        (λ id. any-append (λ u. u.id == id) db.uploads.rows _)
        (All-append (λ u. has_game db u.game_id ≡ true) db.uploads.rows _ h.upload_games allowed)

  pub update_upload-Valid : (given : Upload) → Keeps {e = e} Valid (update_upload given)
  unfolding update_upload
  update_upload-Valid given = exec-Valid _ _ λ now db allowed h.
      let f : Upload → Upload =
        λ u. record given { id = u.id; created_at = u.created_at; updated_at = now } in
      let at : Upload → Bool = λ u. u.id == given.id in
      uploads-IsValid db h (modify at f db.uploads)
        (modify-IsAscending (λ u. u.id) at f (λ u. refl) 1 db.uploads.next_id db.uploads.rows
          h.upload_keys)
        (λ id held. any-modify (λ u. u.id == id) at f db.uploads.rows (λ u. refl) ∙ held)
        (All-modify (λ u. has_game db u.game_id ≡ true) at f db.uploads.rows (λ u old. allowed)
          h.upload_games)
