-- ===== src/Store/Detail.antt =====
-- The statements of lib.rs that prune the detail tables: `prune_detail_history`,
-- `prune_process_fast_history` and `prune_orphan_commands`.
pub mod Laws
use tinytop.Prelude.{
  ◌≡◌, ℕ, zero, suc, ◌+◌, ◌-◌, min, Bool, true, false, not, ◌&&◌, ◌||◌, ltb, ◌==◌, Option, none,
  some, List, [], ◌∷◌, map, length, keep_if, any_of, if◌then◌else◌,
}
use tinytop.Prelude.Int.{ℤ, ltb_ℤ}
use tinytop.Prelude.Text.{Text, text_eq}
use tinytop.Disk.Defs.{u64_top}
use tinytop.Store.Exec.{Exec, pure, sql, query, update, transaction, ◌>>=◌, ◌>>◌}
use tinytop.Store.Rows.{Db, FsSample, MountEvent, ProcessRow}
use tinytop.Store.Tables.{delete_where, count_where}

-- `saturating_add` of `u64`
abbrev pub add_u64 : ℕ → ℕ → ℕ
add_u64 a b = min (a + b) u64_top

-- `DELETE` of the first `n` rows that satisfy `p`
unfoldable pub delete_first {ℓ} : {A : Type ℓ} → ℕ → (A → Bool) → List A → List A
delete_first n p [] = []
delete_first n p (r ∷ rows) =
    let deletes = p r && ltb 0 n in
    let rest = delete_first (if deletes then n - 1 else n) p rows in
    if deletes then rest else r ∷ rest

-- a row that is older than the cutoff and not the newest of its mount
unfoldable pub superseded : ℤ → List FsSample → FsSample → Bool
superseded cutoff all row =
    ltb_ℤ row.captured_at_ms cutoff
    && any_of (λ r. text_eq r.mount row.mount && ltb_ℤ row.captured_at_ms r.captured_at_ms) all

unfoldable pub superseded_event : ℤ → List MountEvent → MountEvent → Bool
superseded_event cutoff all row =
    ltb_ℤ row.captured_at_ms cutoff
    && any_of (λ r. text_eq r.mount row.mount && ltb_ℤ row.captured_at_ms r.captured_at_ms) all

-- the mounts whose newest event is old, and says that the mount is gone
unfoldable pub gone_mounts : ℤ → List MountEvent → List Text
gone_mounts cutoff all =
    map (λ e. e.mount)
      (keep_if
        (λ e.
          ltb_ℤ e.captured_at_ms cutoff
          && not e.present
          && not (
              any_of (λ r. text_eq r.mount e.mount && ltb_ℤ e.captured_at_ms r.captured_at_ms) all))
        all)

-- `process_fast_prune_batch`, and whether a process command has a row that names it
abbrev pub process_fast_prune_batch : ℕ
process_fast_prune_batch = 5_000

unfoldable pub is_orphan : List ProcessRow → List ProcessRow → ℕ → Bool
is_orphan processes fast id =
    not (any_of (λ p. p.command_id == id) processes) && not (any_of (λ p. p.command_id == id) fast)

module _ {F : Type 0} where
  unfoldable pub delete_gone : List Text → ℕ → Exec (Db F) ℕ
  unfolding delete_where count_where
  delete_gone [] deleted = pure deleted
  delete_gone (mount ∷ mounts) deleted = do
    samples ← sql (λ db. (
      count_where (λ r. text_eq r.mount mount) db.fs_samples,
      record db { fs_samples = delete_where (λ r. text_eq r.mount mount) db.fs_samples },
    ))
    events ← sql (λ db. (
      count_where (λ r. text_eq r.mount mount) db.fs_mount_events,
      record db { fs_mount_events = delete_where (λ r. text_eq r.mount mount) db.fs_mount_events },
    ))
    delete_gone mounts (add_u64 (add_u64 deleted samples) events)

  -- the last statement of `prune_detail_history`
  unfoldable pub prune_processes : ℤ → ℕ → Exec (Db F) ℕ
  unfolding delete_where count_where
  prune_processes cutoff deleted = do
    processes ← sql (λ db. (
      count_where (λ r. ltb_ℤ r.captured_at_ms cutoff) db.process_samples,
      record db {
        process_samples = delete_where (λ r. ltb_ℤ r.captured_at_ms cutoff) db.process_samples;
      },
    ))
    pure (add_u64 deleted processes)

  -- its statements from the query of the gone mounts on
  unfoldable pub prune_gone : ℤ → ℕ → Exec (Db F) ℕ
  unfolding gone_mounts delete_gone prune_processes
  prune_gone cutoff deleted = query (λ db. gone_mounts cutoff db.fs_mount_events) >>= λ gone.
      delete_gone gone deleted >>= prune_processes cutoff

  -- its first two statements
  unfoldable pub delete_superseded : ℤ → Exec (Db F) ℕ
  unfolding delete_where count_where superseded
  delete_superseded cutoff = sql (λ db. (
    count_where (superseded cutoff db.fs_samples) db.fs_samples,
    record db { fs_samples = delete_where (superseded cutoff db.fs_samples) db.fs_samples },
  ))

  unfoldable pub delete_superseded_events : ℤ → Exec (Db F) ℕ
  unfolding delete_where count_where superseded_event
  delete_superseded_events cutoff = sql (λ db. (
    count_where (superseded_event cutoff db.fs_mount_events) db.fs_mount_events,
    record db {
      fs_mount_events =
          delete_where (superseded_event cutoff db.fs_mount_events) db.fs_mount_events;
    },
  ))

  -- what `prune_detail_history` does in its transaction
  unfoldable pub prune_detail_body : ℤ → Exec (Db F) ℕ
  unfolding delete_superseded delete_superseded_events prune_gone
  prune_detail_body cutoff = delete_superseded cutoff >>= λ samples.
      delete_superseded_events cutoff >>= λ events. prune_gone cutoff (add_u64 samples events)

  unfoldable pub prune_detail_history : ℤ → Exec (Db F) ℕ
  unfolding prune_detail_body
  prune_detail_history cutoff = transaction (prune_detail_body cutoff)

  -- one statement of `prune_process_fast_history`
  unfoldable pub prune_fast_batch : ℤ → Exec (Db F) ℕ
  unfolding delete_first count_where
  prune_fast_batch cutoff = sql (λ db. (
    min process_fast_prune_batch
        (count_where (λ r. ltb_ℤ r.captured_at_ms cutoff) db.process_samples_fast),
    record db {
      process_samples_fast =
          delete_first process_fast_prune_batch (λ r. ltb_ℤ r.captured_at_ms cutoff)
            db.process_samples_fast;
    },
  ))

  -- the loop; the fuel bounds its iterations
  unfoldable pub prune_fast_loop : ℕ → ℤ → ℕ → Exec (Db F) ℕ
  unfolding prune_fast_batch
  prune_fast_loop zero cutoff total = pure total
  prune_fast_loop (suc fuel) cutoff total = do
    deleted ← prune_fast_batch cutoff
    let total' = add_u64 total deleted
    if ltb deleted process_fast_prune_batch then pure total' else prune_fast_loop fuel cutoff total'

  -- an iteration that goes on deletes rows, so that one more than the rows are enough
  unfoldable pub prune_process_fast_history : ℤ → Exec (Db F) ℕ
  unfolding prune_fast_loop
  prune_process_fast_history cutoff w =
      prune_fast_loop (suc (length w.db.process_samples_fast)) cutoff 0 w

  unfoldable pub prune_orphan_commands : ℕ → Exec (Db F) ℕ
  unfolding delete_first count_where is_orphan
  prune_orphan_commands limit = sql (λ db. (
    min limit
        (count_where (is_orphan db.process_samples db.process_samples_fast) db.process_commands),
    record db {
      process_commands =
          delete_first limit (is_orphan db.process_samples db.process_samples_fast)
            db.process_commands;
    },
  ))
