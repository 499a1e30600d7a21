-- ===== src/Maintenance/Tests.antt =====
-- A tick over one minute bucket, with the default ladder; a promotion of it; and a late sample.
use tinytop.Prelude.{◌≡◌, refl, some, none, [], ◌∷◌, inl, ◌⊎◌, Listed, arith, true, false}
use tinytop.Prelude.Int.{ℤ, pos, ◌+ℤ◌, min_ℤ, max_ℤ, eqb_ℤ, i64_max, i64_min}
use tinytop.Retention.Defs.{default_ladder, to_ladder_config, ArchiveSettings}
use tinytop.Tiers.Defs.{Float, TierBucket, l2, l3, bucket_start_for, resolution_ms}
use tinytop.Store.Exec.{World}
use tinytop.Store.Rows.{Db, empty_db}
use tinytop.Store.Tables.{table}
use tinytop.Archive.Move.{move_expired_l4}
use tinytop.Archive.Safety.{move_expired_l4-LeavesLower}
use tinytop.Maintenance.Tick.{maintain_with_archive}
use tinytop.Maintenance.Promote.{Promotion, l3_folded_until_ms, promote}
use tinytop.Maintenance.PromoteEnds.{promote_with, promote_with-promote}
use tinytop.Maintenance.Refold.{LateWrite, refold_ancestors_for_late_write}
use tinytop.Maintenance.RefoldKeeps.{refold_ancestors_for_late_write-keeps}
use tinytop.Maintenance.MayGo.{MayGo}
use tinytop.Maintenance.Authority.{maintain_with_archive-keeps_l2}

abbrev int_float : Float ℤ
int_float = record {
  zero = pos 0;
  add = λ a b. a +ℤ b;
  mul = λ a b. a;
  div = λ a b. a;
  min = min_ℤ;
  max = max_ℤ;
  of_i64 = λ a. a;
  infinity = i64_max;
  neg_infinity = i64_min;
}

abbrev minute : TierBucket ℤ
minute = record {
  bucket_start_ms = pos 60_000;
  first_captured_at_ms = pos 60_000;
  newest_captured_at_ms = pos 61_000;
  sample_count = pos 2;
  cpu = record { avg = pos 4; min = pos 3; max = pos 5 };
  memory = record { avg = pos 4; min = pos 3; max = pos 5 };
  swap = record { avg = pos 4; min = pos 3; max = pos 5 };
  load = record { avg = pos 4; min = pos 3; max = pos 5 };
  root_used = none;
}

-- the third statement fails
abbrev world : World (Db ℤ)
world = record {
  db = record empty_db { metric_rollups_1m = minute ∷ []; l3_folded_until_ms = some (pos 300_000) };
  faults = false ∷ false ∷ true ∷ [];
}

maintain_with_archive-keeps_l2_example :
    Listed minute
      (maintain_with_archive int_float
        (move_expired_l4 eqb_ℤ)
        (to_ladder_config default_ladder (pos 2_000))
        default_ladder.archive
        (pos 9_000_000_000)
        world).1.db.metric_rollups_1m
    ⊎ MayGo (to_ladder_config default_ladder (pos 2_000)) (pos 9_000_000_000) world.db minute
maintain_with_archive-keeps_l2_example =
    maintain_with_archive-keeps_l2 int_float (move_expired_l4 eqb_ℤ)
      (move_expired_l4-LeavesLower eqb_ℤ) (to_ladder_config default_ladder (pos 2_000))
      default_ladder.archive (pos 9_000_000_000) world minute (omega arith, omega arith) (inl refl)

abbrev promotion : Promotion
promotion = record {
  source_tier = l2;
  target_tier = l3;
  watermark = l3_folded_until_ms;
  now_ms = pos 9_000_000_000;
  grace_ms = pos 4_000;
  source_folded_until_ms = none;
}

promote_with-promote_example :
    promote_with int_float promotion 7 world ≡ promote int_float promotion world
unfolding tinytop.Maintenance.PromoteEnds.starts_of table
promote_with-promote_example =
    promote_with-promote int_float promotion 7 world
      record { clock = omega arith; grace = omega arith; target = λ e. cc } (λ e. cc)
      (((omega arith, omega arith), omega arith), tt)

abbrev late : LateWrite ℤ
late = record {
  captured_at_ms = pos 200_000;
  now_ms = pos 400_000;
  ladder = default_ladder;
  new_sample = minute;
  new_raw_row = true;
}

-- a bucket of five minutes, after that of the late sample
abbrev next_bucket : TierBucket ℤ
next_bucket = record minute { bucket_start_ms = pos 300_000 }

abbrev with_next : World (Db ℤ)
with_next = record {
  db = record empty_db {
    metric_rollups_1m = minute ∷ [];
    metric_rollups_5m = next_bucket ∷ [];
    l3_folded_until_ms = some (pos 600_000);
  };
  faults = [];
}

refold_ancestors_for_late_write-keeps_example :
    Listed next_bucket
      (refold_ancestors_for_late_write late int_float with_next).1.db.metric_rollups_5m
unfolding table bucket_start_for resolution_ms tinytop.Prelude.Int.saturate
    tinytop.Prelude.Int.scale tinytop.Prelude.Int.div_euclid
refold_ancestors_for_late_write-keeps_example =
    refold_ancestors_for_late_write-keeps l3 next_bucket late int_float (λ e. ground (arith, e))
      with_next (inl refl)

-- an hour that has expired, with the archive on
abbrev with_hour : World (Db ℤ)
with_hour = record {
  db = record empty_db { metric_rollups_1h = record minute { bucket_start_ms = pos 0 } ∷ [] };
  faults = [];
}

abbrev queryable : ArchiveSettings
queryable = record default_ladder.archive { queryable = true }
