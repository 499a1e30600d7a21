-- ===== src/Retention/Legacy.antt =====
-- The legacy aliases `retentionHours` and `rollupRetentionDays`, applied to a ladder.
use tinytop.Prelude.{◌≡◌, ◌≤◌, ◌*◌, none, ok, arith}
use tinytop.Prelude.Int.{ℤ, pos, pos_part, ◌≤ℤ◌, max_ℤ, div_euclid, saturating_add, saturate, ◌+ℤ◌}
use tinytop.Retention.Defs.{RetentionLadder, apply_legacy_aliases, validate}
use tinytop.Retention.Validity.{HasRanges, IsOrdered, IsValid, validate-ok}

-- the days that hold at least the given hours, rounded up
abbrev pub days_of_hours : ℤ → ℤ
days_of_hours h = div_euclid (saturating_add h (pos 23)) 24

-- At most ten years of hours are at most 3650 days.
days_of_hours-le : (h : ℤ) → h ≤ℤ pos 87600 → days_of_hours h ≤ℤ pos 3650
unfolding div_euclid saturate ◌+ℤ◌
days_of_hours-le h b = ground arith

-- The days cover the hours, unless the sum saturates.
days_of_hours_cover : (h : ℤ) → h ≤ℤ pos 87600 → pos_part h ≤ pos_part (days_of_hours h) * 24
unfolding div_euclid saturate ◌+ℤ◌
days_of_hours_cover h b = ground arith

module _ (l : RetentionLadder) (h d : ℤ) where
  -- Whatever the ladder was, the aliases leave each enabled tier at least as long as the tier that
  -- feeds it.
  pub apply_legacy_aliases-IsOrdered : IsOrdered (apply_legacy_aliases l h d)
  unfolding apply_legacy_aliases max_ℤ
  apply_legacy_aliases-IsOrdered = record {
    l3_l2 = λ a. ground arith;
    l4_l3 = λ a b c. ground arith;
    l4_l2 = λ a b c. ground arith;
  }

  apply_legacy_aliases-HasRanges :
      h ≤ℤ pos 87600 → d ≤ℤ pos 3650 → HasRanges l → HasRanges (apply_legacy_aliases l h d)
  unfolding apply_legacy_aliases max_ℤ
  apply_legacy_aliases-HasRanges hb db r = record {
    l1 = ground (arith, days_of_hours-le h hb);
    l2 = ground arith;
    l3 = ground (arith, r.l3);
    l4 = ground (arith, r.l3, r.l4);
    detail = r.detail;
    process_fast = r.process_fast;
    cold_after = r.cold_after;
    interval = r.interval;
    min_free = r.min_free;
  }

  -- From a valid ladder, and for at most ten years, the aliases make a ladder that `validate`
  -- accepts, whose L1 holds at least the hours given and whose L2 at least the days given.
  pub apply_legacy_aliases-IsValid :
      h ≤ℤ pos 87600
      → d ≤ℤ pos 3650
      → IsValid l
      → (validate (apply_legacy_aliases l h d) none none ≡ ok tt)
        × (pos_part h ≤ pos_part (apply_legacy_aliases l h d).l1.keep_days * 24)
        × (d ≤ℤ (apply_legacy_aliases l h d).l2.keep_days)
  unfolding apply_legacy_aliases max_ℤ
  apply_legacy_aliases-IsValid hb db v = (
    (validate-ok (apply_legacy_aliases l h d)).1 (record {
      ranges = apply_legacy_aliases-HasRanges hb db v.ranges;
      order = apply_legacy_aliases-IsOrdered;
      archive = record { cold = v.archive.cold; directory = v.archive.directory };
    }),
    ground (arith, days_of_hours_cover h hb),
    ground arith,
  )
