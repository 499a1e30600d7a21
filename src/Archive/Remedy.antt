-- ===== src/Archive/Remedy.antt =====
-- Every error of a move names a step, and the remedy that `archive_remedy` gives for the step's phase
-- is true of the rows.
use tinytop.Prelude.{ℕ, ◌≡◌, Bool, true, List, map, reduce, unwrap_or, Listed}
use tinytop.Prelude.Int.{ℤ, pos, min_ℤ, max_ℤ}
use tinytop.Tiers.Defs.{TierBucket}
use tinytop.Archive.Schema.{
  ArchivePhase, before_copy_commit, between_commits, after_delete_commit, cold_export,
}
use tinytop.Archive.Move.{has_start, expired_rows}
use tinytop.Archive.Moves.{Rows, Moves}

module _ {F : Type 0} where
  abbrev lo_of : List (TierBucket F) → ℤ
  lo_of bs = unwrap_or (pos 0) (reduce min_ℤ (map (λ b. b.bucket_start_ms) bs))

  abbrev hi_of : List (TierBucket F) → ℤ
  hi_of bs = unwrap_or (pos 0) (reduce max_ℤ (map (λ b. b.bucket_start_ms) bs))

module _ {F : Type 0} (same : F → F → Bool) (cutoff : ℤ) (batch : ℕ) where
  -- the batch has been copied: the archive has a row for each of its keys
  abbrev pub IsCopied : Rows F → Rows F → Type 0
  IsCopied before after =
      (b : TierBucket F)
      → Listed b (expired_rows cutoff batch before.main)
      → has_start b.bucket_start_ms after.archived ≡ true

  -- no row of the batch is in the L4 table any more
  abbrev pub IsRemoved : Rows F → Rows F → Type 0
  IsRemoved before after =
      (b : TierBucket F)
      → Listed b (expired_rows cutoff batch before.main)
      → Listed b after.main
      → ⊥

  -- what the remedy of the phase says
  abbrev pub RemedyHolds : ArchivePhase → Rows F → Rows F → Type 0
  RemedyHolds before_copy_commit before after = after ≡ before
  RemedyHolds between_commits before after = (after.main ≡ before.main) × IsCopied before after
  RemedyHolds after_delete_commit before after =
      IsCopied before after
      × IsRemoved before after
      × ((b : TierBucket F) → Listed b after.main → Listed b before.main)
  RemedyHolds cold_export before after = ⊥
