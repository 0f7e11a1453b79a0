-- ===== src/Database/Builds/Latest.antt =====
-- The newest release of a channel.
use mathlib.Core.List.{Perm}
use den_kit_stash.Base.{
  ℕ, String, ◌≤◌, ◌≡◌, subst, some, List, [], ◌∷◌, All, select, ltb, true, arith,
}
use den_kit_stash.Model.{Build}
use den_kit_stash.World.{Env, World, ok}
use den_kit_stash.World.Laws.{query_row-ok}
use den_kit_stash.World.Order.{
  IsOrdered, select-All, order_by-Perm, order_by-All, order_by-IsOrdered,
}
use den_kit_stash.Database.Builds.{is_release, newest_first, head?, get_latest_completed_build}

head?-some :
    (xs : List Build) (b : Build) → head? xs ≡ some b → (rest : List Build) × (xs ≡ b ∷ rest)
head?-some [] b h = absurd (cc h)
head?-some (x ∷ xs) b h = (xs, cc h)

-- A build that `GetLatestCompletedBuildByGameChannelVersion` finds is a completed build of that version
-- in the channel and the game, and no other such build has a larger id: together with builds
-- whose ids are not larger it makes up the builds of that kind.
pub get_latest_completed_build-newest :
    {e : Env} (game_id : ℕ) (channel user_version : String) (w : World e) (b : Build)
    → (get_latest_completed_build game_id channel user_version w).0 ≡ ok b
    → (is_release w.db game_id channel user_version b ≡ true)
      × (rest : List Build) × Perm
          (b ∷ rest)
          (select (is_release w.db game_id channel user_version) w.db.builds.rows)
      × All (λ other. other.id ≤ b.id) rest
unfolding get_latest_completed_build
get_latest_completed_build-newest game_id channel user_version w b h =
    let chosen : List Build =
      select (is_release w.db game_id channel user_version) w.db.builds.rows in
    let (rest, whole) = head?-some (newest_first chosen) b (query_row-ok _ w b h) in
    let fits : All (λ x. is_release w.db game_id channel user_version x ≡ true)
        (newest_first chosen) =
      order_by-All _ (λ x. is_release w.db game_id channel user_version x ≡ true) chosen
        (select-All (is_release w.db game_id channel user_version) w.db.builds.rows) in
    let sorted : IsOrdered (λ x y. y.id ≤ x.id) (newest_first chosen) =
      order_by-IsOrdered (λ x y. ltb y.id x.id) (λ x y. y.id ≤ x.id) (λ x y k. ground arith)
        (λ x y k. ground arith) (λ x y z k l. omega arith) chosen in
    (
      (subst (All (λ x. is_release w.db game_id channel user_version x ≡ true)) whole fits).0,
      rest,
      subst (λ xs. Perm xs chosen) whole (order_by-Perm _ chosen),
      (subst (IsOrdered (λ x y. y.id ≤ x.id)) whole sorted).0,
    )
