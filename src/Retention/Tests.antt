-- ===== src/Retention/Tests.antt =====
-- The retention theorems at the default ladder and at one that keeps less.
use tinytop.Prelude.{◌≡◌, ◌↔◌, refl, true, false, some, none, ok, ◌*◌, ◌≤◌, arith}
use tinytop.Prelude.Int.{pos, pos_part, ◌≤ℤ◌}
use tinytop.Retention.Defs.{
  default_ladder, RetentionLadder, DiskPressureState, validate, grows_from, to_ladder_config,
  apply_legacy_aliases, validate_ranges, validate_order, validate_archive, validate_growth,
}
use tinytop.Retention.Validity.{IsValid, validate-ok}
use tinytop.Retention.Growth.{Within, start, next, grows_from-Within, Accepted-Within}
use tinytop.Retention.Legacy.{apply_legacy_aliases-IsValid}
use tinytop.Retention.Config.{IsExact, to_ladder_config-IsExact}

-- a disk with too little space
abbrev low_disk : DiskPressureState
low_disk = record {
  active = true;
  since_ms = some (pos 5);
  free_bytes = pos 10;
  min_free_bytes = pos 20;
}

-- the defaults with one month less of L3
abbrev shorter : RetentionLadder
shorter = record default_ladder { l3 = record { enabled = true; keep_days = pos 60 } }

default_accepted : validate default_ladder none none ≡ ok tt
unfolding validate validate_ranges validate_order validate_archive validate_growth
default_accepted = refl

shorter_accepted : validate shorter (some low_disk) (some default_ladder) ≡ ok tt
unfolding validate validate_ranges validate_order validate_archive validate_growth grows_from
shorter_accepted = refl

validate-ok_example : (validate default_ladder none none ≡ ok tt) ↔ IsValid default_ladder
validate-ok_example = validate-ok default_ladder

grows_from-Within_example :
    (grows_from shorter default_ladder ≡ false) ↔ Within shorter default_ladder
grows_from-Within_example = grows_from-Within shorter default_ladder

Accepted-Within_example : Within shorter default_ladder
Accepted-Within_example =
    Accepted-Within low_disk default_ladder shorter refl (next start shorter_accepted)

apply_legacy_aliases-IsValid_example :
    (validate (apply_legacy_aliases default_ladder (pos 100) (pos 40)) none none ≡ ok tt)
    × (pos_part (pos 100)
        ≤ pos_part (apply_legacy_aliases default_ladder (pos 100) (pos 40)).l1.keep_days * 24)
    × (pos 40 ≤ℤ (apply_legacy_aliases default_ladder (pos 100) (pos 40)).l2.keep_days)
apply_legacy_aliases-IsValid_example =
    apply_legacy_aliases-IsValid default_ladder (pos 100) (pos 40) (omega arith) (omega arith)
      ((validate-ok default_ladder).0 default_accepted)

to_ladder_config-IsExact_example :
    IsExact default_ladder (to_ladder_config default_ladder (pos 2_000))
to_ladder_config-IsExact_example =
    to_ladder_config-IsExact default_ladder (pos 2_000) default_accepted
