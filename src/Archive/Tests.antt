-- ===== src/Archive/Tests.antt =====
-- Tests of the archive, and the theorems at concrete inputs.
use tinytop.Prelude.{
  ℕ, ◌≡◌, refl, Bool, true, false, ◌⊎◌, inl, inr, none, List, [], ◌∷◌, Listed, any_of, ◌==◌, Result,
  ok, err, archive, verify, min,
}
use tinytop.Prelude.Int.{ℤ, pos}
use tinytop.Tiers.Defs.{Stat, TierBucket, l4}
use tinytop.Store.Exec.{World}
use tinytop.Store.Rows.{Db, empty_db}
use tinytop.Store.Tables.{ends_by}
use tinytop.Archive.Move.{row_match, move_expired_l4}
use tinytop.Archive.Safety.{move_expired_l4-keeps}

abbrev same : ℕ → ℕ → Bool
same a b = a == b

abbrev stat : Stat ℕ
stat = record { avg = 2; min = 1; max = 3 }

abbrev hour : TierBucket ℕ
hour = record {
  bucket_start_ms = pos 3_600_000;
  first_captured_at_ms = pos 3_600_000;
  newest_captured_at_ms = pos 7_100_000;
  sample_count = pos 1_800;
  cpu = stat;
  memory = stat;
  swap = stat;
  load = stat;
  root_used = none;
}

abbrev world : List Bool → World (Db ℕ)
world faults = record {
  db = record empty_db {
    metric_rollups_1h = hour ∷ record hour { bucket_start_ms = pos 7_200_000 } ∷ [];
  };
  faults = faults;
}

-- the first hour has expired
abbrev cutoff : ℤ
cutoff = pos 7_200_000

moves_one : (move_expired_l4 same cutoff 1_000 (world [])).0 ≡ ok 1
unfolding move_expired_l4 tinytop.Prelude.Int.◌+ℤ◌
moves_one = refl

archived_one : (move_expired_l4 same cutoff 1_000 (world [])).1.db.archive_file.rows ≡ hour ∷ []
unfolding move_expired_l4 tinytop.Prelude.Int.◌+ℤ◌
archived_one = refl

-- nineteen statements succeed, and the next fails
abbrev until_verify : List Bool
until_verify =
    false ∷ false ∷ false ∷ false ∷ false ∷ false ∷ false ∷ false ∷ false ∷ false ∷ false ∷ false
    ∷ false ∷ false ∷ false ∷ false ∷ false ∷ false ∷ false ∷ true ∷ []

fails_to_verify : (move_expired_l4 same cutoff 1_000 (world until_verify)).0 ≡ err (archive verify)
unfolding move_expired_l4 tinytop.Prelude.Int.◌+ℤ◌
fails_to_verify = refl

move_expired_l4-keeps_example :
    Listed hour (move_expired_l4 same cutoff 1_000 (world until_verify)).1.db.metric_rollups_1h
    ⊎ ((ends_by l4 cutoff hour ≡ true)
        × (any_of
              (λ a. row_match same a hour)
              (move_expired_l4 same cutoff 1_000 (world until_verify)).1.db.archive_file.rows
            ≡ true))
move_expired_l4-keeps_example =
    (move_expired_l4-keeps same cutoff 1_000 (world until_verify)).0 hour (inl refl)

-- twenty-four statements succeed, and the last one fails
abbrev until_detach : List Bool
until_detach =
    false ∷ false ∷ false ∷ false ∷ false ∷ false ∷ false ∷ false ∷ false ∷ false ∷ false ∷ false
    ∷ false ∷ false ∷ false ∷ false ∷ false ∷ false ∷ false ∷ false ∷ false ∷ false ∷ false ∷ false
    ∷ true ∷ []
