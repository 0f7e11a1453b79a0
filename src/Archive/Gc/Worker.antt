-- ===== src/Archive/Gc/Worker.antt =====
-- `StartArchiveGC` of handlers/archive_gc.go: the sweeps of the worker.
use den_kit_stash.Base.{ℕ, zero, suc, Bool, not, List, [], ◌∷◌, text_eq, if◌then◌else◌}
use den_kit_stash.World.{Env, Action, Error, ◌>>=◌, pure}
use den_kit_stash.Archive.Gc.{ArchiveGcConfig, ArchiveGcStats, run_archive_gc_once}

module _ {e : Env} where
  -- The loop of the worker, for the number of sweeps that it makes before the process ends.
  unfoldable pub sweeps : ArchiveGcConfig → ℕ → Action e Error (List ArchiveGcStats)
  sweeps cfg zero = pure []
  sweeps cfg (suc n) = do stats ← run_archive_gc_once cfg; rest ← sweeps cfg n; pure (stats ∷ rest)

  -- StartArchiveGC; the worker runs beside the requests, here as one sequence of sweeps
  unfoldable pub start_archive_gc :
      Bool → ArchiveGcConfig → ℕ → Action e Error (List ArchiveGcStats)
  unfolding sweeps
  start_archive_gc has_storage cfg n =
      if not cfg.enabled then pure [] else if not has_storage then pure [] else sweeps cfg n
