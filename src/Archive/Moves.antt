-- ===== src/Archive/Moves.antt =====
-- What a move has done to the rows of the two files when it ends, or when it fails at some step.
use tinytop.Prelude.{
  ℕ, ◌≡◌, refl, ap, ◌⊎◌, inl, inr, Bool, true, false, ◌==◌, ◌&&◌, Option, none, some, List, any_of,
  keep_if, StoreError, validation, validations, sqlx, serde, disk_check, integer_overflow,
  migration, archive, ArchiveStep, create_directory, open_file, schema, close_file, acquire, attach,
  begin_copy, select, select_decode, insert, commit_copy, verify, begin_delete, delete, watermark,
  commit_delete, arith,
}
use tinytop.Prelude.Int.{ℤ}
use tinytop.Tiers.Defs.{TierBucket}
use mathlib.Core.Path.{ap₂}
use tinytop.Store.Exec.{pure, raise, query, update, ◌>>◌}
use tinytop.Store.Triple.{
  Triple, sql-Triple, pure-Triple, raise-Triple, if-Triple, bind-Triple, given-Triple,
}
use tinytop.Store.Rows.{Db}
use tinytop.Store.Tables.{delete_where, count_where}
use tinytop.Maintenance.Frames.{LowerTables, lower_tables}
use tinytop.Archive.Schema.{
  ArchivePhase, before_copy_commit, between_commits, after_delete_commit, cold_export,
  archive_phase, at, plain, logged, accepted, current, objects, required_objects,
  inspect_archive_schema, open_archive_read_only, create_schema, check_existing, create_missing,
  ensure_archive_schema,
}
use tinytop.Archive.Move.{
  ArchiveBatch, or_rollback, detach_after, between, insert_all, selected, copy_rows, count_archived,
  copy_selected, copy_attached_batch, row_match, is_copied, delete_copied, set_moved,
  delete_attached_batch, delete_if_any, acquire_attached, copy_and_delete,
}
use tinytop.Archive.Steps.{
  at-Triple, or_rollback-Triple, from_here-Triple, detach_after-Triple, plain-Triple, logged-Triple,
}

-- the L4 rows of the two files, and the tables of the finer tiers
pub record Rows (F : Type 0) : Type 0 where
  pub main : List (TierBucket F)
  pub archived : List (TierBucket F)
  pub finer : LowerTables F

module _ {F : Type 0} where
  abbrev pub rows_of : Db F → Rows F
  rows_of db = record {
    main = db.metric_rollups_1h;
    archived = db.archive_file.rows;
    finer = lower_tables db;
  }

  abbrev pub copied_by : ArchiveBatch → Rows F → Rows F
  copied_by b r = record {
    main = r.main;
    archived = insert_all (keep_if (between b.min_ms b.max_ms) r.main) r.archived;
    finer = r.finer;
  }

  module _ (same : F → F → Bool) (cutoff : ℤ) (batch : ℕ) (rows : Rows F) where
    abbrev pub goes_by : ArchiveBatch → Rows F → TierBucket F → Bool
    goes_by b r m = between b.min_ms b.max_ms m && any_of (λ a. row_match same a m) r.archived

    -- the batch that the move selects
    abbrev pub chosen : ArchiveBatch
    chosen = selected cutoff batch rows.main

    -- the rows when the batch is in the archive
    abbrev pub copied : Rows F
    copied = copied_by chosen rows

    -- a row of the range, with a row of the archive that matches it
    abbrev pub goes : TierBucket F → Bool
    goes = goes_by chosen copied

    -- and when the matched rows have left the main table
    abbrev pub moved : Rows F
    moved = record copied { main = delete_where goes rows.main }

    -- some row is selected
    abbrev pub Selects : Type 0
    Selects = (chosen.row_count == 0) ≡ false

    -- the rows when a step of the phase fails
    abbrev pub RowsAt : ArchivePhase → Db F → Type 0
    RowsAt before_copy_commit d = rows_of d ≡ rows
    RowsAt between_commits d = Selects × (rows_of d ≡ copied)
    RowsAt after_delete_commit d =
        ((chosen.row_count ≡ 0) × (rows_of d ≡ rows)) ⊎ (Selects × (rows_of d ≡ moved))
    RowsAt cold_export d = ⊥

    abbrev pub Fails : StoreError → Db F → Type 0
    Fails (archive step) d = RowsAt (archive_phase step) d
    Fails (validation r) d = ⊥
    Fails (validations rs) d = ⊥
    Fails sqlx d = ⊥
    Fails serde d = ⊥
    Fails disk_check d = ⊥
    Fails (integer_overflow s) d = ⊥
    Fails (migration r) d = ⊥

    abbrev pub Start : Db F → Type 0
    Start d = rows_of d ≡ rows

    abbrev pub Copied : Db F → Type 0
    Copied d = Selects × (rows_of d ≡ copied)

    -- the number of rows that left
    abbrev pub Moves : ℕ → Db F → Type 0
    Moves n d =
        ((n ≡ 0) × (chosen.row_count ≡ 0) × (rows_of d ≡ rows))
        ⊎ ((n ≡ count_where goes rows.main) × Selects × (rows_of d ≡ moved))

    plain-at :
        (step : ArchiveStep)
        → archive_phase step ≡ before_copy_commit
        → Triple Start (at step plain) (λ _. Start) Fails
    plain-at step e = at-Triple step plain (plain-Triple (λ db h. h) (λ db h. rw e h))

    query-at :
        {A : Type 0} (step : ArchiveStep)
        → archive_phase step ≡ before_copy_commit
        → (f : Db F → A) → Triple Start (at step (query f)) (λ _. Start) Fails
    query-at step e f =
        at-Triple step (query f) (sql-Triple (λ db. (f db, db)) (λ db h. h) (λ db h. rw e h))

    inspect-Triple : Triple Start inspect_archive_schema (λ _. Start) Fails
    unfolding inspect_archive_schema archive_phase
    inspect-Triple =
        bind-Triple _ _ (query-at schema refl (λ db. db.archive_file.user_version)) λ version.
          bind-Triple _ _ (query-at schema refl (λ db. objects db.archive_file)) λ all.
            bind-Triple _ _ (query-at schema refl (λ db. required_objects db.archive_file))
              λ required. pure-Triple _ (λ db h. h)

    open-Triple :
        (step : ArchiveStep)
        → archive_phase step ≡ before_copy_commit
        → Triple Start (open_archive_read_only step) (λ _. Start) Fails
    unfolding open_archive_read_only
    open-Triple step e = bind-Triple _ _ (query-at step e (λ db. db.archive_file.is_there)) λ there.
        if-Triple there _ _ (λ _. query-at step e (λ db. true)) (λ _. pure-Triple _ (λ db h. h))

    refuse-Triple :
        {A : Type 0} → Triple Start (logged >> raise {A = A} (archive schema)) (λ _. Start) Fails
    unfolding archive_phase
    refuse-Triple =
        bind-Triple _ _ (logged-Triple (λ db h. h)) λ _. raise-Triple (archive schema) (λ db h. h)

    check_existing-Triple : (found : Bool) → Triple Start (check_existing found) (λ _. Start) Fails
    unfolding check_existing archive_phase
    check_existing-Triple false = pure-Triple false (λ db h. h)
    check_existing-Triple true = bind-Triple _ _ inspect-Triple λ i.
        if-Triple (accepted i) _ _
          (λ _. bind-Triple _ _ (plain-at close_file refl) λ _. pure-Triple _ (λ db h. h))
          (λ _. refuse-Triple)

    create-Triple : Triple Start (at schema (update create_schema)) (λ _. Start) Fails
    unfolding create_schema archive_phase
    create-Triple =
        at-Triple schema _ (sql-Triple (λ db. (tt, create_schema db)) (λ db h. h) (λ db h. h))

    create_missing-Triple : (done : Bool) → Triple Start (create_missing done) (λ _. Start) Fails
    unfolding create_missing archive_phase
    create_missing-Triple true = pure-Triple tt (λ db h. h)
    create_missing-Triple false =
        bind-Triple _ _
          (bind-Triple _ _
            (at-Triple open_file _ (
              sql-Triple
                (λ db.
                  (tt, record db { archive_file = record db.archive_file { is_there = true } }))
                (λ db h. h) (λ db h. h)))
            (λ _. inspect-Triple))
          λ i.
            if-Triple (accepted i) _ _
              (λ _.
                if-Triple (current i) _ _ (λ _. plain-at close_file refl)
                  (λ _. bind-Triple _ _ create-Triple (λ _. plain-at close_file refl)))
              (λ _. refuse-Triple)

    acquire_attached-Triple : Triple Start acquire_attached (λ _. Start) Fails
    unfolding acquire_attached ensure_archive_schema archive_phase
    acquire_attached-Triple =
        bind-Triple _ _
          (bind-Triple _ _
            (bind-Triple _ _
              (bind-Triple _ _
                (bind-Triple _ _
                  (bind-Triple _ _
                    (bind-Triple _ _ (plain-at create_directory refl)
                      (λ _. open-Triple open_file refl))
                    check_existing-Triple)
                  create_missing-Triple)
                (λ _. plain-at acquire refl))
              (λ _. plain-at attach refl))
            (λ _. plain-at attach refl))
          (λ _. plain-at attach refl)

    copied-at :
        (b : ArchiveBatch) → b ≡ chosen → (db : Db F) → Start db → rows_of (copy_rows b db) ≡ copied
    unfolding copy_rows
    copied-at b e db h = ap₂ copied_by e h

    abbrev pub Got : Option ArchiveBatch → Db F → Type 0
    Got none d = (chosen.row_count ≡ 0) × Start d
    Got (some b) d = (b ≡ chosen) × Copied d

    rolled-at :
        (step : ArchiveStep) (before : Db F)
        → archive_phase step ≡ before_copy_commit
        → Start before
        → {P : Db F → Type 0} → Triple P (or_rollback before step plain) (λ _. P) Fails
    rolled-at step before e h =
        or_rollback-Triple before step plain (rw e h) (plain-Triple (λ db p. p) (λ db p. tt))

    copy_selected-Triple :
        (before : Db F)
        → Start before
        → Selects
        → (b : ArchiveBatch) → b ≡ chosen
        → Triple Start (copy_selected before b) Got Fails
    unfolding copy_selected archive_phase
    copy_selected-Triple before h some_row b e =
        bind-Triple {R = λ _. Copied} {Q = Got} _ _
          (bind-Triple {R = λ _. Copied} _ _
            (bind-Triple {R = λ _. Copied} _ _
              (bind-Triple {R = λ _. Start} _ _
                (bind-Triple {R = λ _. Start} _ _ (rolled-at select_decode before refl h)
                  (λ _. rolled-at select_decode before refl h))
                (λ _. or_rollback-Triple before insert _ h (
                  sql-Triple (λ db. (tt, copy_rows b db)) (λ db k. (some_row, copied-at b e db k))
                    (λ db k. tt))))
              (λ _. rolled-at commit_copy before refl h))
            (λ _.
              at-Triple verify _
                (sql-Triple (λ db. (count_archived b db, db)) (λ db k. k) (λ db k. k))))
          (λ n.
            if-Triple (n == b.row_count) (pure (some b)) (raise (archive verify))
              (λ _. pure-Triple (some b) (λ db k. (e, k)))
              (λ _. raise-Triple (archive verify) (λ db k. k)))

    chosen-at : (db : Db F) → Start db → selected cutoff batch db.metric_rollups_1h ≡ chosen
    chosen-at db h = ap (λ r. selected cutoff batch r.main) h

    none_at : (b : ArchiveBatch) → b ≡ chosen → (b.row_count == 0) ≡ true → chosen.row_count ≡ 0
    none_at b e h = ground (arith, e, h)

    some_at : (b : ArchiveBatch) → b ≡ chosen → (b.row_count == 0) ≡ false → Selects
    some_at b e h = rw (← e) h

    copy_attached_batch-Triple : Triple Start (copy_attached_batch cutoff batch) Got Fails
    unfolding copy_attached_batch archive_phase
    copy_attached_batch-Triple = bind-Triple _ _ (plain-at begin_copy refl) λ _.
        from_here-Triple _ λ before h.
          bind-Triple {R = λ b d. (b ≡ chosen) × Start d} {Q = Got} _ _
            (or_rollback-Triple before select _ h (
              sql-Triple (λ db. (selected cutoff batch db.metric_rollups_1h, db))
                (λ db k. (chosen-at db k, k)) (λ db k. tt)))
            λ b. given-Triple _ λ e.
              bind-Triple {R = λ _. Start} _ _ (rolled-at select_decode before refl h) λ _.
                if-Triple (b.row_count == 0) _ _
                  (λ empty.
                    bind-Triple {R = λ _. Start} _ _ (rolled-at commit_copy before refl h)
                      (λ _. pure-Triple none (λ db k. (none_at b e empty, k))))
                  (λ some_row. copy_selected-Triple before h (some_at b e some_row) b e)

    deleted-at :
        (b : ArchiveBatch)
        → b ≡ chosen
        → (db : Db F) → Copied db
        → Moves (delete_copied same b db).0 (delete_copied same b db).1
    unfolding delete_copied is_copied
    deleted-at b e db (some_row, k) = inr (
      ap₂ (λ b' r. count_where (goes_by b' r) r.main) e k,
      some_row,
      ap₂ {B = Rows F} (λ b' r. record r { main = delete_where (goes_by b' r) r.main }) e k,
    )

    delete_attached_batch-Triple :
        (b : ArchiveBatch) → b ≡ chosen → Triple Copied (delete_attached_batch same b) Moves Fails
    unfolding delete_attached_batch archive_phase set_moved
    delete_attached_batch-Triple b e =
        bind-Triple {R = λ _. Copied} _ _
          (at-Triple begin_delete plain (plain-Triple (λ db k. k) (λ db k. k)))
          λ _. from_here-Triple _ λ before h.
            bind-Triple {R = Moves} {Q = Moves} _ _
              (or_rollback-Triple before delete _ h
                (sql-Triple (delete_copied same b) (deleted-at b e) (λ db k. tt)))
              λ n.
                bind-Triple {R = λ _. Moves n} _ _
                  (bind-Triple {R = λ _. Moves n} _ _
                    (if-Triple (n == b.row_count) _ _
                      (λ _.
                        or_rollback-Triple before watermark _ h
                          (sql-Triple (λ db. (tt, set_moved b db)) (λ db k. k) (λ db k. tt)))
                      (λ _. pure-Triple tt (λ db k. k)))
                    (λ _.
                      or_rollback-Triple before commit_delete plain h
                        (plain-Triple (λ db k. k) (λ db k. tt))))
                  (λ _. pure-Triple n (λ db k. k))

    delete_if_any-Triple :
        (o : Option ArchiveBatch) → Triple (Got o) (delete_if_any same o) Moves Fails
    unfolding delete_if_any
    delete_if_any-Triple none = pure-Triple 0 (λ db k. inl (refl, k.0, k.1))
    delete_if_any-Triple (some b) = given-Triple _ (delete_attached_batch-Triple b)

    copy_and_delete-Triple : Triple Start (copy_and_delete same cutoff batch) Moves Fails
    unfolding copy_and_delete
    copy_and_delete-Triple =
        bind-Triple {R = Got} _ _ copy_attached_batch-Triple delete_if_any-Triple

    moved_or_not : (n : ℕ) (db : Db F) → Moves n db → RowsAt after_delete_commit db
    moved_or_not n db (inl (e, z, k)) = inl (z, k)
    moved_or_not n db (inr (e, z, k)) = inr (z, k)

    pub attached-Triple :
        Triple Start
          (acquire_attached >> detach_after (copy_and_delete same cutoff batch))
          Moves
          Fails
    unfolding archive_phase
    attached-Triple =
        bind-Triple {R = λ _. Start} _ _ acquire_attached-Triple
          λ _. detach_after-Triple _ moved_or_not copy_and_delete-Triple
