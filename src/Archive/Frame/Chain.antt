-- ===== src/Archive/Frame/Chain.antt =====
-- Making an archive, from its chain or for a new build, writes no build and no channel.
use den_kit_stash.Base.{
  ◌≡◌, subst, sym, arith, ℕ, zero, suc, Text, Bool, true, false, Option, none, some, List, [], ◌∷◌,
}
use den_kit_stash.Model.{Build, BuildFile, Channel}
use den_kit_stash.World.{Env, World, Action, Error, Result, ok, err, pure}
use den_kit_stash.World.Tables.{Table}
use den_kit_stash.World.Keeps.{Keeps, Keeps-pure, Keeps-bind, Keeps-or_fail}
use den_kit_stash.Archive.Patch.{
  apply_patch, apply_patch_step, read_parent_signature, materialize_archived_tree,
  compress_and_upload_archive,
}
use den_kit_stash.Archive.Collect.{
  object_of, has_warm_archive, walk_parents, check_links, collect_rebuild_chain,
}
use den_kit_stash.Archive.Rebuild.{
  touched, check_object, warm_archive, replay_steps, replay_base, replay_tree, replay_archive_chain,
  mark_rebuilding, revert, require_completed, recovered, recover, rebuild_archive, ensured,
  ensure_archive,
}
use den_kit_stash.Archive.Frame.{
  Frame, frame_rules, Frame-file_exists, Frame-get_build_by_id, Frame-find_build_file,
  Frame-download_object,
}

apply_patch-world :
    {e : Env} (p b : List ℕ) (t : e.Tree) (c : Option e.Container) (w : World e)
    → (apply_patch {e = e} p b t c w).1 ≡ w
unfolding apply_patch
apply_patch-world p b t c w = ground arith

module _ {e : Env} {bs : Table Build} {cs : Table Channel} where
  Frame-apply_patch :
      (p b : List ℕ) (t : e.Tree) (c : Option e.Container)
      → Keeps (Frame {e = e} bs cs) (apply_patch p b t c)
  Frame-apply_patch p b t c = record {
    at = λ w h. subst (Frame {e = e} bs cs) (sym (apply_patch-world p b t c w)) h;
  }

  pub Frame-apply_patch_step :
      (b : Build) (t : e.Tree) (c : Option e.Container)
      → Keeps (Frame {e = e} bs cs) (apply_patch_step b t c)
  unfolding apply_patch_step
  Frame-apply_patch_step b t c =
      Keeps-bind _ _ (Keeps-or_fail _ _ (Frame-find_build_file b.id "patch" "default")) λ p.
        Keeps-bind _ _ (Keeps-or_fail _ _ (Frame-find_build_file b.id "signature" "default")) λ s.
          Keeps-bind _ _ (Frame-download_object p.storage_path) λ patch.
            Keeps-bind _ _ (Frame-download_object s.storage_path)
              λ bytes. Frame-apply_patch patch bytes t c

  pub Frame-read_parent_signature :
      (id : ℕ) → Keeps (Frame {e = e} bs cs) (read_parent_signature id)
  unfolding read_parent_signature
  Frame-read_parent_signature id = search frame_rules

  pub Frame-materialize : (id : ℕ) → Keeps (Frame {e = e} bs cs) (materialize_archived_tree id)
  unfolding materialize_archived_tree
  Frame-materialize id = search frame_rules

  pub Frame-compress :
      (b : Build) (t : e.Tree) → Keeps (Frame {e = e} bs cs) (compress_and_upload_archive b t)
  unfolding compress_and_upload_archive
  Frame-compress b t = search frame_rules

  Frame-object_of : (o : Option Text) → Keeps (Frame {e = e} bs cs) (object_of o)
  Frame-object_of none = Keeps-pure false
  Frame-object_of (some p) = Frame-file_exists p

  Frame-has_warm_archive : (id : ℕ) → Keeps (Frame {e = e} bs cs) (has_warm_archive id)
  unfolding has_warm_archive
  Frame-has_warm_archive id = search (frame_rules, Frame-object_of)

  Frame-unless_warm :
      {A : Type 0} (warm : Bool) (a : A) (m : Action e Error A)
      → Keeps (Frame {e = e} bs cs) m
      → Keeps (Frame {e = e} bs cs) (elim warm [ true ↦ pure a | false ↦ m ])
  Frame-unless_warm true a m k = Keeps-pure a
  Frame-unless_warm false a m k = k

  Frame-walk_parents :
      (n : ℕ) (c : List Build) (o : Option ℕ) → Keeps (Frame {e = e} bs cs) (walk_parents n c o)
  unfolding walk_parents
  Frame-walk_parents n c none = search frame_rules
  Frame-walk_parents zero c (some id) = search frame_rules
  Frame-walk_parents (suc n) c (some id) =
      Keeps-bind _ _ (Keeps-or_fail _ _ (Frame-get_build_by_id id)) λ parent.
        Keeps-bind _ _ (Frame-has_warm_archive parent.id) λ warm.
          Frame-unless_warm warm (c, some parent) _
            (Frame-walk_parents n (parent ∷ c) parent.parent_build_id)

  Frame-check_links : (chain : List Build) → Keeps (Frame {e = e} bs cs) (check_links chain)
  unfolding check_links
  Frame-check_links [] = search frame_rules
  Frame-check_links (b ∷ rest) =
      Keeps-bind _ _ (Keeps-or_fail _ _ (Frame-find_build_file b.id "patch" "default")) λ _.
        Keeps-bind _ _ (Keeps-or_fail _ _ (Frame-find_build_file b.id "signature" "default"))
          λ _. Frame-check_links rest

  Frame-collect : (b : Build) → Keeps (Frame {e = e} bs cs) (collect_rebuild_chain b)
  unfolding collect_rebuild_chain
  Frame-collect b = search (frame_rules, Frame-walk_parents, Frame-check_links)

  Frame-touched :
      (f : Option BuildFile) (present : Bool) → Keeps (Frame {e = e} bs cs) (touched f present)
  Frame-touched none true = search frame_rules
  Frame-touched none false = search frame_rules
  Frame-touched (some f) true = search frame_rules
  Frame-touched (some f) false = search frame_rules

  Frame-check_object :
      (f : Option BuildFile) (p : Option Text) → Keeps (Frame {e = e} bs cs) (check_object f p)
  Frame-check_object f none = search frame_rules
  Frame-check_object f (some p) = search (frame_rules, Frame-touched)

  Frame-warm_archive : (id : ℕ) → Keeps (Frame {e = e} bs cs) (warm_archive id)
  unfolding warm_archive
  Frame-warm_archive id = search (frame_rules, Frame-check_object)

  Frame-replay_steps :
      (chain : List Build) (t : e.Tree) (c : Option e.Container)
      → Keeps (Frame {e = e} bs cs) (replay_steps chain t c)
  unfolding replay_steps
  Frame-replay_steps [] t c = search frame_rules
  Frame-replay_steps (b ∷ rest) t c =
      search (frame_rules, Frame-apply_patch_step, Frame-replay_steps rest)

  Frame-replay_base : (o : Option Build) → Keeps (Frame {e = e} bs cs) (replay_base o)
  unfolding replay_base
  Frame-replay_base none = search frame_rules
  Frame-replay_base (some b) =
      Keeps-bind _ _ (Frame-materialize b.id)
        λ tree. Keeps-bind _ _ (Frame-read_parent_signature b.id) λ signature. Keeps-pure _

  Frame-replay_tree : (b : Build) → Keeps (Frame {e = e} bs cs) (replay_tree b)
  unfolding replay_tree
  Frame-replay_tree b = search (frame_rules, Frame-collect, Frame-replay_base, Frame-replay_steps)

  Frame-replay_archive_chain :
      (b : Build) (f : BuildFile) → Keeps (Frame {e = e} bs cs) (replay_archive_chain b f)
  unfolding replay_archive_chain
  Frame-replay_archive_chain b f = search (frame_rules, Frame-replay_tree, Frame-compress) depth 12

  Frame-mark_rebuilding :
      (id : ℕ) (o : Option BuildFile) → Keeps (Frame {e = e} bs cs) (mark_rebuilding id o)
  Frame-mark_rebuilding id none = search frame_rules
  Frame-mark_rebuilding id (some f) = search frame_rules

  Frame-revert : (b : Bool) (f : BuildFile) → Keeps (Frame {e = e} bs cs) (revert b f)
  Frame-revert true f = search frame_rules
  Frame-revert false f = search frame_rules

  Frame-require_completed : (b : Bool) → Keeps (Frame {e = e} bs cs) (require_completed b)
  Frame-require_completed true = search frame_rules
  Frame-require_completed false = search frame_rules

  Frame-recovered :
      (b : Bool) (r : Result BuildFile BuildFile) → Keeps (Frame {e = e} bs cs) (recovered b r)
  Frame-recovered b (ok f) = search frame_rules
  Frame-recovered b (err f) = search (frame_rules, Frame-revert)

  Frame-recover :
      (m : Action e BuildFile BuildFile) (b : Bool)
      → Keeps (Frame {e = e} bs cs) m
      → Keeps (Frame {e = e} bs cs) (recover m b)
  Frame-recover m b k = record { at = λ w h. (Frame-recovered b (m w).0).at (m w).1 (k.at w h) }

  Frame-rebuild_archive : (id : ℕ) → Keeps (Frame {e = e} bs cs) (rebuild_archive id)
  unfolding rebuild_archive
  Frame-rebuild_archive id =
      search
        (
          frame_rules, Frame-require_completed, Frame-mark_rebuilding, Frame-recover,
          Frame-replay_archive_chain,
        )
        depth 12

  Frame-ensured :
      (id : ℕ) (o : Option BuildFile) (m : Action e Error BuildFile)
      → Keeps (Frame {e = e} bs cs) m
      → Keeps (Frame {e = e} bs cs) (ensured id o m)
  Frame-ensured id none m k = k
  Frame-ensured id (some f) m k = Keeps-pure f

  -- The rebuild of an evicted archive writes no build and no channel.
  pub Frame-ensure_archive : (id : ℕ) → Keeps (Frame {e = e} bs cs) (ensure_archive id)
  unfolding ensure_archive
  Frame-ensure_archive id =
      search (frame_rules, Frame-warm_archive, Frame-ensured, Frame-rebuild_archive) depth 12
