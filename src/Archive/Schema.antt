-- ===== src/Archive/Schema.antt =====
-- `inspect_archive_schema`, `archive_schema_state`, `ensure_archive_schema` and
-- `open_archive_read_only` of archive.rs, and which phase an error's step belongs to.
use tinytop.Prelude.{
  ℕ, ◌+◌, Bool, true, false, not, ◌&&◌, ◌||◌, ◌==◌, if◌then◌else◌, ok, err, archive, ArchiveStep,
  create_directory, open_file, schema, close_file, acquire, attach, begin_copy, select,
  select_decode, insert, commit_copy, verify, begin_delete, delete, watermark, commit_delete,
  detach, cold,
}
use tinytop.Prelude.Int.{ℤ, pos, eqb_ℤ}
use tinytop.Store.Exec.{Exec, pure, raise, query, update, ◌>>=◌, ◌>>◌}
use tinytop.Store.Rows.{Db, ArchiveFile}

pub data ArchivePhase : Type 0 where
  before_copy_commit between_commits after_delete_commit cold_export : ArchivePhase

unfoldable pub archive_phase : ArchiveStep → ArchivePhase
archive_phase verify = between_commits
archive_phase begin_delete = between_commits
archive_phase delete = between_commits
archive_phase watermark = between_commits
archive_phase commit_delete = between_commits
archive_phase detach = after_delete_commit
archive_phase (cold name) = cold_export
archive_phase create_directory = before_copy_commit
archive_phase open_file = before_copy_commit
archive_phase schema = before_copy_commit
archive_phase close_file = before_copy_commit
archive_phase acquire = before_copy_commit
archive_phase attach = before_copy_commit
archive_phase begin_copy = before_copy_commit
archive_phase select = before_copy_commit
archive_phase select_decode = before_copy_commit
archive_phase insert = before_copy_commit
archive_phase commit_copy = before_copy_commit

module _ {S : Type 0} where
  -- `map_err(|source| archive_sqlx(step, source))`
  abbrev pub at : {A : Type 0} → ArchiveStep → Exec S A → Exec S A
  at step m w = let (r, w') = m w in elim r [ ok a ↦ (ok a, w') | err e ↦ (err (archive step), w') ]

  -- a statement that is not about the rows
  abbrev pub plain : Exec S (Unit {0})
  plain = update (λ db. db)

  -- a statement whose failure is only logged
  abbrev pub logged : Exec S (Unit {0})
  logged w = (ok tt, (plain w).1)

pub record ArchiveSchemaInspection : Type 0 where
  pub user_version : ℤ
  pub object_count : ℕ
  pub required_object_count : ℕ

unfoldable pub accepted : ArchiveSchemaInspection → Bool
accepted i = eqb_ℤ i.user_version (pos 1) || eqb_ℤ i.user_version (pos 0) && i.object_count == 0

unfoldable pub current : ArchiveSchemaInspection → Bool
current i = eqb_ℤ i.user_version (pos 1) && i.required_object_count == 3

abbrev count : Bool → ℕ
count true = 1
count false = 0

pub data ArchiveSchemaState : Type 0 where
  absent : ArchiveSchemaState
  incomplete : ℤ → ℕ → ArchiveSchemaState
  is_current : ArchiveSchemaState

module _ {F : Type 0} where
  -- the rows of `sqlite_master`; the manifest's text key has an index of its own
  unfoldable pub objects : ArchiveFile F → ℕ
  objects f =
      count f.has_rollups
      + count f.has_newest_index
      + count f.has_manifest
      + count f.has_manifest
      + f.other_objects

  unfoldable pub required_objects : ArchiveFile F → ℕ
  required_objects f = count f.has_rollups + count f.has_newest_index + count f.has_manifest

  unfoldable pub inspect_archive_schema : Exec (Db F) ArchiveSchemaInspection
  unfolding objects required_objects
  inspect_archive_schema = at schema (query (λ db. db.archive_file.user_version)) >>= λ version.
      at schema (query (λ db. objects db.archive_file)) >>= λ all.
      at schema (query (λ db. required_objects db.archive_file)) >>= λ required.
      pure record { user_version = version; object_count = all; required_object_count = required }

  -- `Some` connection is true
  unfoldable pub open_archive_read_only : ArchiveStep → Exec (Db F) Bool
  open_archive_read_only step = at step (query (λ db. db.archive_file.is_there)) >>= λ there.
      if there then at step (query (λ db. true)) else pure false

  unfoldable pub schema_state_of : ArchiveSchemaInspection → Exec (Db F) ArchiveSchemaState
  unfolding accepted current
  schema_state_of i =
      if not (accepted i)
      then raise (archive schema)
      else if current i
      then pure is_current
      else pure (incomplete i.user_version i.required_object_count)

  unfoldable pub archive_schema_state : Exec (Db F) ArchiveSchemaState
  unfolding inspect_archive_schema open_archive_read_only schema_state_of
  archive_schema_state = open_archive_read_only schema >>= λ found.
      if found then inspect_archive_schema >>= schema_state_of else pure absent

  -- `ARCHIVE_SCHEMA_SQL`, which is one transaction
  unfoldable pub create_schema : Db F → Db F
  create_schema db = record db {
    archive_file = record db.archive_file {
      user_version = pos 1;
      has_rollups = true;
      has_newest_index = true;
      has_manifest = true;
    };
  }

  -- a file that is there: whether its schema is current
  unfoldable pub check_existing : Bool → Exec (Db F) Bool
  unfolding inspect_archive_schema accepted current
  check_existing false = pure false
  check_existing true = inspect_archive_schema >>= λ i.
      if accepted i
      then at close_file plain >> pure (current i)
      else logged >> raise (archive schema)

  unfoldable pub create_missing : Bool → Exec (Db F) (Unit {0})
  unfolding inspect_archive_schema accepted current create_schema
  create_missing true = pure tt
  create_missing false =
      at open_file
        (update (λ db. record db { archive_file = record db.archive_file { is_there = true } }))
      >> inspect_archive_schema
      >>= λ i.
          if accepted i
          then (if current i
              then at close_file plain
              else at schema (update create_schema) >> at close_file plain)
          else logged >> raise (archive schema)

  unfoldable pub ensure_archive_schema : Exec (Db F) (Unit {0})
  unfolding open_archive_read_only check_existing create_missing
  ensure_archive_schema =
      at create_directory plain
      >> open_archive_read_only open_file
      >>= check_existing
      >>= create_missing
