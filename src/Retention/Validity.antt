-- ===== src/Retention/Validity.antt =====
-- `validate` decides the documented conditions on a ladder.
use tinytop.Prelude.{
  ℕ, String, ◌≡◌, ◌≢◌, ◌↔◌, ◌⊎◌, true, false, Option, none, some, ok, refl, arith,
}
use tinytop.Prelude.Int.{ℤ, pos, ◌≤ℤ◌}
use tinytop.Retention.Defs.{
  DiskPressureState, RetentionLadder, validate_range, validate_ranges, validate_order,
  validate_archive, validate_growth, validate, grows_from, min_free_floor, is_empty, is_absolute,
}

abbrev pub InRange : ℤ → ℕ → ℕ → Type 0
InRange v lo hi = (pos lo ≤ℤ v) × (v ≤ℤ pos hi)

-- every number lies in its range
pub record HasRanges (l : RetentionLadder) : Type 0 where
  pub l1 : InRange l.l1.keep_days 3 3650
  pub l2 : InRange l.l2.keep_days 7 3650
  pub l3 : InRange l.l3.keep_days 0 3650
  pub l4 : InRange l.l4.keep_days 0 36500
  pub detail : InRange l.detail_interval_sec 15 3600
  pub process_fast : InRange l.process_fast_keep_hours 1 72
  pub cold_after : InRange l.archive.cold_after_months 1 120
  pub interval : InRange l.disk_check.interval_minutes 5 1440
  pub min_free : pos min_free_floor ≤ℤ l.disk_check.min_free_bytes

-- an enabled tier keeps at least as long as the tier that feeds it, or for ever (L4)
pub record IsOrdered (l : RetentionLadder) : Type 0 where
  pub l3_l2 : l.l3.enabled ≡ true → l.l2.keep_days ≤ℤ l.l3.keep_days
  pub l4_l3 :
      l.l4.enabled ≡ true
      → l.l4.keep_days ≢ pos 0
      → l.l3.enabled ≡ true
      → l.l3.keep_days ≤ℤ l.l4.keep_days
  pub l4_l2 :
      l.l4.enabled ≡ true
      → l.l4.keep_days ≢ pos 0
      → l.l3.enabled ≡ false
      → l.l2.keep_days ≤ℤ l.l4.keep_days

-- cold files come from the queryable archive, in the default place or an absolute one
pub record HasArchive (l : RetentionLadder) : Type 0 where
  pub cold : l.archive.cold ≡ true → l.archive.queryable ≡ true
  pub directory : (is_empty l.archive.directory ≡ true) ⊎ (is_absolute l.archive.directory ≡ true)

pub record IsValid (l : RetentionLadder) : Type 0 where
  pub ranges : HasRanges l
  pub order : IsOrdered l
  pub archive : HasArchive l

validate_range-ok :
    (f : String) (v : ℤ) (lo hi : ℕ)
    → (validate_range f v (pos lo) (pos hi) ≡ ok tt) ↔ InRange v lo hi
unfolding validate_range
validate_range-ok f v lo hi = ground arith

module _ (l : RetentionLadder) where
  validate_ranges-ok : (validate_ranges l ≡ ok tt) ↔ HasRanges l
  unfolding validate_ranges
  validate_ranges-ok = ((λ h. ground arith), (λ h. ground arith))

  validate_order-ok : (validate_order l ≡ ok tt) ↔ IsOrdered l
  unfolding validate_order
  validate_order-ok = (
    (λ h. record {
      l3_l2 = λ a. ground arith;
      l4_l3 = λ a b c. ground arith;
      l4_l2 = λ a b c. ground arith;
    }),
    (λ h. ground (arith, h.l3_l2, h.l4_l3, h.l4_l2)),
  )

  validate_archive-ok : (validate_archive l ≡ ok tt) ↔ HasArchive l
  unfolding validate_archive
  validate_archive-ok = (
    (λ h. record { cold = λ a. ground arith; directory = ground arith }),
    (λ h. ground (arith, h.cold, h.directory)),
  )

  -- the conditions that do not look at the disk or at the previous settings
  validate-split :
      (p : Option DiskPressureState) (q : Option RetentionLadder)
      → (validate l p q ≡ ok tt) ↔ (IsValid l × (validate_growth l p q ≡ ok tt))
  unfolding validate
  validate-split p q = (
    (λ h. (
      record {
        ranges = validate_ranges-ok.0 (ground arith);
        order = validate_order-ok.0 (ground arith);
        archive = validate_archive-ok.0 (ground arith);
      },
      ground arith,
    )),
    (λ h. ground (
      arith,
      validate_ranges-ok.1 h.0.ranges,
      validate_order-ok.1 h.0.order,
      validate_archive-ok.1 h.0.archive,
    )),
  )

  -- With no disk pressure given, `validate` accepts a ladder exactly when every number lies in its
  -- range, each enabled tier keeps at least as long as the tier that feeds it (L4 also for ever),
  -- cold archives go with queryable ones, and the directory is empty or absolute.
  pub validate-ok : (validate l none none ≡ ok tt) ↔ IsValid l
  unfolding validate_growth
  validate-ok =
      ((λ h. ((validate-split none none).0 h).0), (λ h. (validate-split none none).1 (h, refl)))

  -- Against a previous ladder and a measured disk state, `validate` accepts exactly the valid
  -- ladders that, while the pressure is active, do not grow from the previous one.
  pub validate-ok_pressure :
      (p : DiskPressureState) (q : RetentionLadder)
      → (validate l (some p) (some q) ≡ ok tt)
        ↔ (IsValid l × (p.active ≡ true → grows_from l q ≡ false))
  unfolding validate_growth
  validate-ok_pressure p q = (
    (λ h. let r = (validate-split (some p) (some q)).0 h in (r.0, λ a. ground (arith, r.1))),
    (λ h. (validate-split (some p) (some q)).1 (h.0, ground (arith, h.1))),
  )
