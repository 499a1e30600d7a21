-- ===== src/Archive/Move.antt =====
-- `move_expired_l4` of archive.rs: a batch of expired L4 rows is copied into the archive and committed
-- there, and then deleted from the main table in a second transaction.
use tinytop.Prelude.{
  ℕ, min, Bool, ◌&&◌, Option, none, some, List, [], ◌∷◌, map, take, length, keep_if, any_of, reduce,
  unwrap_or, if◌then◌else◌, ◌==◌, ok, err, archive, acquire, attach, ArchiveStep, begin_copy,
  select, select_decode, insert, commit_copy, verify, begin_delete, delete, watermark,
  commit_delete, detach,
}
use tinytop.Prelude.Int.{ℤ, pos, leb_ℤ, eqb_ℤ, min_ℤ, max_ℤ, saturating_add}
use tinytop.Tiers.Defs.{Stat, TierBucket, l4, resolution_ms}
use tinytop.Store.Exec.{Exec, pure, raise, sql, query, update, rollback, ◌>>=◌, ◌>>◌}
use tinytop.Store.Rows.{Db}
use tinytop.Store.Tables.{delete_where, count_where, ends_by, upsert_row}
use tinytop.Maintenance.Defs.{archive_batch_rows}
use tinytop.Archive.Schema.{at, plain, ensure_archive_schema}

pub record ArchiveBatch : Type 0 where
  pub min_ms : ℤ
  pub max_ms : ℤ
  pub row_count : ℕ

module _ {S A : Type 0} where
  -- `return rollback(connection, archive_sqlx(step, source))` where the statement fails
  abbrev pub or_rollback : S → ArchiveStep → Exec S A → Exec S A
  or_rollback before step m w =
      let (r, w') = m w in elim r [ ok a ↦ (ok a, w') | err e ↦ rollback before (archive step) w' ]

  -- the database at the beginning of a transaction, to which a rollback returns
  abbrev pub from_here : (S → Exec S A) → Exec S A
  from_here f w = f w.db w

  abbrev pub detach_after : Exec S A → Exec S A
  detach_after m w =
      let (r, w') = m w in
      let (d, w'') = plain w' in
      elim d [
        | ok _ ↦ (r, w'')
        | err _ ↦ elim r [ ok _ ↦ (err (archive detach), w'') | err e ↦ (err e, w'') ]
      ]

-- `bucket_start_ms BETWEEN ?1 AND ?2`
unfoldable pub between : {F : Type 0} → ℤ → ℤ → TierBucket F → Bool
between lo hi b = leb_ℤ lo b.bucket_start_ms && leb_ℤ b.bucket_start_ms hi

-- some row has this key
unfoldable pub has_start : {F : Type 0} → ℤ → List (TierBucket F) → Bool
has_start t rows = any_of (λ a. eqb_ℤ a.bucket_start_ms t) rows

-- `INSERT OR REPLACE … SELECT`
unfoldable pub insert_all :
    {F : Type 0} → List (TierBucket F) → List (TierBucket F) → List (TierBucket F)
unfolding upsert_row
insert_all [] rows = rows
insert_all (b ∷ bs) rows = insert_all bs (upsert_row b rows)

module _ {F : Type 0} (cutoff : ℤ) (batch : ℕ) where
  -- the rows of the subquery, in the order of the key
  unfoldable pub expired_rows : List (TierBucket F) → List (TierBucket F)
  unfolding ends_by
  expired_rows rows = take batch (keep_if (ends_by l4 cutoff) rows)

  -- `MIN`, `MAX` and `COUNT` of them
  unfoldable pub selected : List (TierBucket F) → ArchiveBatch
  unfolding expired_rows
  selected rows = record {
    min_ms = unwrap_or (pos 0) (reduce min_ℤ (map (λ b. b.bucket_start_ms) (expired_rows rows)));
    max_ms = unwrap_or (pos 0) (reduce max_ℤ (map (λ b. b.bucket_start_ms) (expired_rows rows)));
    row_count = length (expired_rows rows);
  }

module _ {F : Type 0} where
  unfoldable pub copy_rows : ArchiveBatch → Db F → Db F
  unfolding insert_all between
  copy_rows b db = record db {
    archive_file = record db.archive_file {
      rows =
          insert_all (keep_if (between b.min_ms b.max_ms) db.metric_rollups_1h)
            db.archive_file.rows;
    };
  }

  -- the rows of the range whose key is in the archive
  unfoldable pub count_archived : ArchiveBatch → Db F → ℕ
  unfolding count_where between has_start
  count_archived b db =
      count_where
        (λ m. between b.min_ms b.max_ms m && has_start m.bucket_start_ms db.archive_file.rows)
        db.metric_rollups_1h

  unfoldable pub copy_selected : Db F → ArchiveBatch → Exec (Db F) (Option ArchiveBatch)
  unfolding copy_rows count_archived
  copy_selected before b =
      or_rollback before select_decode plain
      >> or_rollback before select_decode plain
      >> or_rollback before insert (update (copy_rows b))
      >> or_rollback before commit_copy plain
      >> at verify (query (count_archived b))
      >>= λ archived_count.
          if archived_count == b.row_count then pure (some b) else raise (archive verify)

  unfoldable pub copy_attached_batch : ℤ → ℕ → Exec (Db F) (Option ArchiveBatch)
  unfolding selected copy_selected
  copy_attached_batch cutoff batch =
      at begin_copy plain
      >> from_here λ before.
        or_rollback before select (query (λ db. selected cutoff batch db.metric_rollups_1h))
        >>= λ b.
            or_rollback before select_decode plain
            >> (if b.row_count == 0
                then or_rollback before commit_copy plain >> pure none
                else copy_selected before b)

  -- `ATTACH`, and `PRAGMA archive.synchronous` set and read
  unfoldable pub acquire_attached : Exec (Db F) (Unit {0})
  unfolding ensure_archive_schema
  acquire_attached =
      ensure_archive_schema
      >> at acquire plain
      >> at attach plain
      >> at attach plain
      >> at attach plain

  -- the watermark is the end of the batch
  unfoldable pub set_moved : ArchiveBatch → Db F → Db F
  unfolding resolution_ms
  set_moved b db = record db {
    archive_moved_until_ms = some (saturating_add b.max_ms (pos (resolution_ms l4)));
  }

-- `ARCHIVE_ROW_MATCH`, with the equality that SQLite has on `REAL`
module _ {F : Type 0} (same : F → F → Bool) where
  unfoldable pub same_stat : Stat F → Stat F → Bool
  same_stat s t = same s.avg t.avg && same s.min t.min && same s.max t.max

  unfoldable pub same_root : Option (Stat F) → Option (Stat F) → Bool
  unfolding same_stat
  same_root none none = Bool.true
  same_root none (some t) = Bool.false
  same_root (some s) none = Bool.false
  same_root (some s) (some t) = same_stat s t

  unfoldable pub row_match : TierBucket F → TierBucket F → Bool
  unfolding same_stat same_root
  row_match a m =
      eqb_ℤ a.bucket_start_ms m.bucket_start_ms
      && eqb_ℤ a.first_captured_at_ms m.first_captured_at_ms
      && eqb_ℤ a.newest_captured_at_ms m.newest_captured_at_ms
      && eqb_ℤ a.sample_count m.sample_count
      && same_stat a.cpu m.cpu
      && same_stat a.memory m.memory
      && same_stat a.swap m.swap
      && same_stat a.load m.load
      && same_root a.root_used m.root_used

  unfoldable pub is_copied : ArchiveBatch → Db F → TierBucket F → Bool
  unfolding between row_match
  is_copied b db m = between b.min_ms b.max_ms m && any_of (λ a. row_match a m) db.archive_file.rows

  unfoldable pub delete_copied : ArchiveBatch → Db F → ℕ × Db F
  unfolding is_copied delete_where count_where
  delete_copied b db = (
    count_where (is_copied b db) db.metric_rollups_1h,
    record db { metric_rollups_1h = delete_where (is_copied b db) db.metric_rollups_1h },
  )

  unfoldable pub delete_attached_batch : ArchiveBatch → Exec (Db F) ℕ
  unfolding delete_copied set_moved
  delete_attached_batch b =
      at begin_delete plain
      >> from_here λ before. or_rollback before delete (sql (delete_copied b)) >>= λ deleted.
          (if deleted == b.row_count
            then or_rollback before watermark (update (set_moved b))
            else pure tt)
          >> or_rollback before commit_delete plain
          >> pure deleted

  unfoldable pub delete_if_any : Option ArchiveBatch → Exec (Db F) ℕ
  unfolding delete_attached_batch
  delete_if_any none = pure 0
  delete_if_any (some b) = delete_attached_batch b

  unfoldable pub copy_and_delete : ℤ → ℕ → Exec (Db F) ℕ
  unfolding copy_attached_batch delete_if_any
  copy_and_delete cutoff batch = copy_attached_batch cutoff batch >>= delete_if_any

  unfoldable pub move_expired_l4 : ℤ → ℕ → Exec (Db F) ℕ
  unfolding acquire_attached copy_and_delete
  move_expired_l4 cutoff batch =
      if batch == 0
      then pure 0
      else acquire_attached >> detach_after (copy_and_delete cutoff (min batch archive_batch_rows))
