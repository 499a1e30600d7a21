-- ===== src/Archive/Safety.antt =====
-- No row is lost by a move, and the remedy of an error says what happened to the rows.
use tinytop.Prelude.{
  ℕ, ◌+◌, leb→le, le→leb, min, zero, suc, ◌≡◌, refl, sym, ◌⊎◌, inl, inr, Bool, true, false, not,
  ◌==◌, List, [], ◌∷◌, All, any_of, map, take, keep_if, length, reduce, fold_from, unwrap_or,
  Bool-cases, Listed, keep_if-Listed, StoreError, archive, arith, validation, validations, sqlx,
  serde, disk_check, integer_overflow, migration,
}
use mathlib.Core.Path.{subst}
use tinytop.Prelude.Int.{ℤ, pos, pos_part, neg_part, ◌+ℤ◌, leb_ℤ, max_ℤ, int_laws}
use tinytop.Tiers.Defs.{TierBucket, l4, resolution_ms}
use tinytop.Store.Exec.{World, ◌>>◌}
use tinytop.Store.Triple.{Ends-either}
use tinytop.Store.Rows.{Db}
use tinytop.Store.Tables.{ends_by, delete_where}
use tinytop.Maintenance.Defs.{archive_batch_rows}
use tinytop.Maintenance.Frames.{lower_tables}
use tinytop.Archive.Schema.{
  ArchivePhase, before_copy_commit, between_commits, after_delete_commit, cold_export,
  archive_phase,
}
use tinytop.Archive.Move.{
  between, has_start, expired_rows, selected, row_match, move_expired_l4, acquire_attached,
  copy_and_delete, detach_after,
}
use tinytop.Archive.Rows.{has_start-insert_all}
use tinytop.Archive.Moves.{
  Rows, rows_of, copied, goes, moved, Selects, RowsAt, Fails, Moves, attached-Triple,
}

abbrev Late : ℤ → ℤ → Type 0
Late cutoff t = leb_ℤ (t +ℤ pos (resolution_ms l4)) cutoff ≡ true

Late-max : (cutoff a b : ℤ) → Late cutoff a → Late cutoff b → Late cutoff (max_ℤ a b)
unfolding max_ℤ
Late-max cutoff a b h k = elim (Bool-cases (leb_ℤ a b)) [ inl e ↦ rw e k | inr e ↦ rw e h ]

module _ {F : Type 0} where
  Late-fold_from :
      (cutoff u : ℤ) (bs : List (TierBucket F))
      → Late cutoff u
      → All (λ b. Late cutoff b.bucket_start_ms) bs
      → Late cutoff (fold_from max_ℤ u (map (λ b. b.bucket_start_ms) bs))
  Late-fold_from cutoff u [] h k = h
  Late-fold_from cutoff u (b ∷ bs) h (k, ks) =
      Late-fold_from cutoff (max_ℤ u b.bucket_start_ms) bs (Late-max cutoff u b.bucket_start_ms h k)
        ks

  Late-keep_if :
      (cutoff : ℤ) (rows : List (TierBucket F))
      → All (λ b. Late cutoff b.bucket_start_ms) (keep_if (ends_by l4 cutoff) rows)
  unfolding ends_by
  Late-keep_if cutoff [] = tt
  Late-keep_if cutoff (b ∷ bs) = elim (Bool-cases (ends_by l4 cutoff b)) [
    | inl e ↦ rw e (e, Late-keep_if cutoff bs)
    | inr e ↦ rw e (Late-keep_if cutoff bs)
  ]

All-take : {A : Type 0} (P : A → Type 0) (n : ℕ) (xs : List A) → All P xs → All P (take n xs)
All-take P zero xs h = tt
All-take P (suc n) [] h = tt
All-take P (suc n) (x ∷ xs) (h, hs) = (h, All-take P n xs hs)

Late-le : (cutoff t hi : ℤ) → leb_ℤ t hi ≡ true → Late cutoff hi → Late cutoff t
Late-le cutoff t hi h k = le→leb (pos_part end + neg_part cutoff) (pos_part cutoff + neg_part end) (
    omega (
      int_laws,
      leb→le (pos_part t + neg_part hi) (pos_part hi + neg_part t) h,
      leb→le (pos_part late_end + neg_part cutoff) (pos_part cutoff + neg_part late_end) k,
    ))
  where
    end : ℤ
    end = t +ℤ pos (resolution_ms l4)

    late_end : ℤ
    late_end = hi +ℤ pos (resolution_ms l4)

module _ {F : Type 0} (cutoff : ℤ) (batch : ℕ) where
  Late-selected :
      (rows : List (TierBucket F))
      → ((selected cutoff batch rows).row_count == 0) ≡ false
      → Late cutoff (selected cutoff batch rows).max_ms
  unfolding selected expired_rows
  Late-selected rows h = Late-rows (expired_rows cutoff batch rows) h (
      All-take (λ b. Late cutoff b.bucket_start_ms) batch (keep_if (ends_by l4 cutoff) rows)
        (Late-keep_if cutoff rows))
    where
      Late-rows :
          (bs : List (TierBucket F))
          → (length bs == 0) ≡ false
          → All (λ b. Late cutoff b.bucket_start_ms) bs
          → Late cutoff (unwrap_or (pos 0) (reduce max_ℤ (map (λ b. b.bucket_start_ms) bs)))
      Late-rows [] e k = cc
      Late-rows (b ∷ bs) e (k, ks) = Late-fold_from cutoff b.bucket_start_ms bs k ks

  module _ (same : F → F → Bool) (rows : Rows F) where
    -- a row stays, or it has expired and a row of the archive matches it
    abbrev pub SafeRows : TierBucket F → Rows F → Type 0
    SafeRows b r =
        Listed b r.main
        ⊎ ((ends_by l4 cutoff b ≡ true) × (any_of (λ a. row_match same a b) r.archived ≡ true))

    -- the archive loses no key
    abbrev pub KeepsKeys : Rows F → Type 0
    KeepsKeys r = (t : ℤ) → has_start t rows.archived ≡ true → has_start t r.archived ≡ true

    abbrev IsSafe : Rows F → Type 0
    IsSafe r =
        ((b : TierBucket F) → Listed b rows.main → SafeRows b r)
        × KeepsKeys r
        × (r.finer ≡ rows.finer)

    goes-Late :
        (b : TierBucket F)
        → Selects same cutoff batch rows
        → goes same cutoff batch rows b ≡ true
        → (ends_by l4 cutoff b ≡ true)
          × (any_of (λ a. row_match same a b) (copied same cutoff batch rows).archived ≡ true)
    unfolding between ends_by
    goes-Late b some_row h = (
      Late-le cutoff b.bucket_start_ms (selected cutoff batch rows.main).max_ms (ground (arith, h))
          (Late-selected rows.main some_row),
      ground (arith, h),
    )

    moved-Safe :
        (b : TierBucket F)
        → Selects same cutoff batch rows
        → Listed b rows.main
        → SafeRows b (moved same cutoff batch rows)
    unfolding delete_where
    moved-Safe b some_row l = elim (Bool-cases (goes same cutoff batch rows b)) [
      | inl e ↦ inr (goes-Late b some_row e)
      | inr e ↦
          inl (keep_if-Listed (λ m. not (goes same cutoff batch rows m)) b rows.main (rw e refl) l)
    ]

    copied-keys : KeepsKeys (copied same cutoff batch rows)
    copied-keys t h =
        has_start-insert_all t
          (keep_if
            (between (selected cutoff batch rows.main).min_ms
              (selected cutoff batch rows.main).max_ms)
            rows.main)
          rows.archived h

    at-IsSafe :
        (phase : ArchivePhase) (d : Db F)
        → RowsAt same cutoff batch rows phase d
        → IsSafe (rows_of d)
    at-IsSafe before_copy_commit d e = subst IsSafe (sym e) ((λ b l. inl l), (λ t h. h), refl)
    at-IsSafe between_commits d (some_row, e) =
        subst IsSafe (sym e) ((λ b l. inl l), copied-keys, refl)
    at-IsSafe after_delete_commit d (inl (z, e)) =
        subst IsSafe (sym e) ((λ b l. inl l), (λ t h. h), refl)
    at-IsSafe after_delete_commit d (inr (some_row, e)) =
        subst IsSafe (sym e) ((λ b l. moved-Safe b some_row l), copied-keys, refl)
    at-IsSafe cold_export d e = absurd e

    Moves-IsSafe : (n : ℕ) (d : Db F) → Moves same cutoff batch rows n d → IsSafe (rows_of d)
    Moves-IsSafe n d (inl (e, z, k)) = at-IsSafe after_delete_commit d (inl (z, k))
    Moves-IsSafe n d (inr (e, z, k)) = at-IsSafe after_delete_commit d (inr (z, k))

    Fails-IsSafe :
        (e : StoreError) (d : Db F) → Fails same cutoff batch rows e d → IsSafe (rows_of d)
    Fails-IsSafe (archive step) d h = at-IsSafe (archive_phase step) d h
    Fails-IsSafe (validation r) d h = absurd h
    Fails-IsSafe (validations rs) d h = absurd h
    Fails-IsSafe sqlx d h = absurd h
    Fails-IsSafe serde d h = absurd h
    Fails-IsSafe disk_check d h = absurd h
    Fails-IsSafe (integer_overflow s) d h = absurd h
    Fails-IsSafe (migration r) d h = absurd h

module _ {F : Type 0} (same : F → F → Bool) (cutoff : ℤ) (batch : ℕ) (w : World (Db F)) where
  move-IsSafe :
      IsSafe cutoff
        (min batch archive_batch_rows)
        same
        (rows_of w.db)
        (rows_of (move_expired_l4 same cutoff batch w).1.db)
  unfolding move_expired_l4
  move-IsSafe = elim (Bool-cases (batch == 0)) [
    | inl e ↦ rw e ((λ b l. inl l), (λ t h. h), refl)
    | inr e ↦
        let n = min batch archive_batch_rows in
        let m = (acquire_attached >> detach_after (copy_and_delete same cutoff n)) w in
        rw e (
          Ends-either (λ d. IsSafe cutoff n same (rows_of w.db) (rows_of d))
            (Moves same cutoff n (rows_of w.db)) (Fails same cutoff n (rows_of w.db))
            (Moves-IsSafe cutoff n same (rows_of w.db)) (Fails-IsSafe cutoff n same (rows_of w.db))
            m.0 m.1 ((attached-Triple same cutoff n (rows_of w.db)).holds w.db w.faults refl))
  ]

  -- Whichever statements of a move fail, every row of the L4 table is still in it afterwards, unless it
  -- had ended by the cutoff and a row of the archive equals it in every column; and the archive has a
  -- row for every key that it had.
  pub move_expired_l4-keeps :
      ((b : TierBucket F)
        → Listed b w.db.metric_rollups_1h
        → Listed b (move_expired_l4 same cutoff batch w).1.db.metric_rollups_1h
          ⊎ ((ends_by l4 cutoff b ≡ true)
              × (any_of
                    (λ a. row_match same a b)
                    (move_expired_l4 same cutoff batch w).1.db.archive_file.rows
                  ≡ true)))
      × ((t : ℤ)
          → has_start t w.db.archive_file.rows ≡ true
          → has_start t (move_expired_l4 same cutoff batch w).1.db.archive_file.rows ≡ true)
  move_expired_l4-keeps = (move-IsSafe.0, move-IsSafe.1)

  -- the tables of the finer tiers and the watermarks are left alone
  pub move_expired_l4-LeavesLower :
      lower_tables (move_expired_l4 same cutoff batch w).1.db ≡ lower_tables w.db
  move_expired_l4-LeavesLower = move-IsSafe.2
