-- ===== src/Retention/Config.antt =====
-- The maintenance configuration that a valid ladder gives.
use tinytop.Prelude.{ℕ, ◌≡◌, refl, ◌≤◌, ◌*◌, Option, none, some, ok, arith, if◌then◌else◌}
use tinytop.Prelude.Int.{ℤ, pos, negsuc, pos_part, saturating_mul, i64_top, int_laws, eq_of_parts}
use tinytop.Retention.Defs.{
  day_ms, RetentionLadder, ToggledTierKeep, to_ladder_config, validate, LadderConfig,
}
use tinytop.Retention.Validity.{InRange, validate-ok}

-- a product in the range of `i64` is exact
exact_mul :
    (a : ℤ) (k lo hi : ℕ)
    → InRange a lo hi
    → hi * k ≤ i64_top
    → saturating_mul a k ≡ pos (pos_part a * k)
exact_mul (pos n) k lo hi r b =
    let bound : n * k ≤ hi * k = grind arith in eq_of_parts _ _ (omega (int_laws, bound))
exact_mul (negsuc n) k lo hi r b = absurd (omega arith)

-- the milliseconds of an enabled tier
abbrev pub enabled_ms : ToggledTierKeep → Option ℤ
enabled_ms t = if t.enabled then some (pos (pos_part t.keep_days * day_ms)) else none

-- The settings in milliseconds, exactly
pub record IsExact (l : RetentionLadder) (c : LadderConfig) : Type 0 where
  pub l1 : c.l1_keep_ms ≡ pos (pos_part l.l1.keep_days * day_ms)
  pub l2 : c.l2_keep_ms ≡ pos (pos_part l.l2.keep_days * day_ms)
  pub l3 : c.l3 ≡ enabled_ms l.l3
  pub l4 : c.l4 ≡ enabled_ms l.l4
  pub detail : c.detail_interval_ms ≡ pos (pos_part l.detail_interval_sec * 1_000)
  pub process_fast : c.process_fast_keep_ms ≡ pos (pos_part l.process_fast_keep_hours * 3_600_000)

-- For a ladder that `validate` accepts no product saturates: every setting of the configuration is
-- the exact number of milliseconds, and is absent exactly for a tier that is off.
pub to_ladder_config-IsExact :
    (l : RetentionLadder) (poll : ℤ)
    → validate l none none ≡ ok tt
    → IsExact l (to_ladder_config l poll)
unfolding to_ladder_config
to_ladder_config-IsExact l poll h =
    let v = (validate-ok l).0 h in
    record {
      l1 = exact_mul l.l1.keep_days day_ms 3 3650 v.ranges.l1 (omega arith);
      l2 = exact_mul l.l2.keep_days day_ms 7 3650 v.ranges.l2 (omega arith);
      l3 = rw (exact_mul l.l3.keep_days day_ms 0 3650 v.ranges.l3 (omega arith)) refl;
      l4 = rw (exact_mul l.l4.keep_days day_ms 0 36500 v.ranges.l4 (omega arith)) refl;
      detail = exact_mul l.detail_interval_sec 1_000 15 3600 v.ranges.detail (omega arith);
      process_fast =
          exact_mul l.process_fast_keep_hours 3_600_000 1 72 v.ranges.process_fast (omega arith);
    }
