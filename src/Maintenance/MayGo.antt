-- ===== src/Maintenance/MayGo.antt =====
-- When an L2 bucket may go, and that the cutoff of a tick lets no other go.
use tinytop.Prelude.{
  ◌≡◌, ◌∙◌, refl, Bool, true, false, ◌⊎◌, inl, inr, Option, none, some, is_some, if◌then◌else◌,
  arith,
}
use mathlib.Core.Path.{subst}
use tinytop.Prelude.Int.{
  ℤ, pos, negsuc, ◌+ℤ◌, ◌≤ℤ◌, ◌<ℤ◌, IsI64, i64_max, i64_min, min_ℤ, saturating_sub,
}
use tinytop.Retention.Defs.{LadderConfig}
use tinytop.Tiers.Defs.{Tier, l2, TierBucket, resolution_ms}
use tinytop.Store.Rows.{Db}
use tinytop.Store.Tables.{ends_by}
use tinytop.Maintenance.Defs.{◌then◌, required_watermark}
use tinytop.Maintenance.Prune.{l2_cutoff}

-- the end of a bucket
abbrev pub end_of : {F : Type 0} → Tier → TierBucket F → ℤ
end_of tier b = b.bucket_start_ms +ℤ pos (resolution_ms tier)

-- an L2 bucket that may go: it is past its time, and before the watermark of the enabled tier that is
-- folded from it
pub record MayGo {F : Type 0} (config : LadderConfig) (now : ℤ) (db : Db F) (b : TierBucket F)
    : Type 0 where
  pub is_old : end_of l2 b ≤ℤ saturating_sub now config.l2_keep_ms
  pub in_l3 :
      is_some config.l3 ≡ true → (t : ℤ) × (db.l3_folded_until_ms ≡ some t) × (end_of l2 b ≤ℤ t)
  pub in_l4 :
      is_some config.l3 ≡ false
      → is_some config.l4 ≡ true
      → (t : ℤ) × (db.l4_folded_until_ms ≡ some t) × (end_of l2 b ≤ℤ t)

-- a watermark that was read: the stored one, or none when the read fails
abbrev pub Read : Option ℤ → Option ℤ → Type 0
Read value v = (v ≡ none) ⊎ (v ≡ value)

some-injective : {A : Type 0} {a b : A} → some a ≡ some b → a ≡ b
some-injective e = cc

if_on : {A : Type 0} (b : Bool) (x y : A) → b ≡ true → (if b then x else y) ≡ x
if_on b x y e = cc

if_off : {A : Type 0} (b : Bool) (x y : A) → b ≡ false → (if b then x else y) ≡ y
if_off b x y e = cc

later-above_min : (s : ℤ) → IsI64 s → i64_min <ℤ s +ℤ pos 60_000
unfolding ◌+ℤ◌
later-above_min (pos n) t = ground arith
later-above_min (negsuc n) t = ground arith

required-some :
    (value v : Option ℤ) (e : ℤ)
    → Read value v
    → i64_min <ℤ e
    → e ≤ℤ required_watermark v
    → (t : ℤ) × (value ≡ some t) × (e ≤ℤ t)
unfolding required_watermark
required-some value none e r lo h = absurd (omega arith)
required-some none (some t) e r lo h = absurd (ground arith)
required-some (some u) (some t) e (inl c) lo h = absurd (ground arith)
required-some (some u) (some t) e (inr c) lo h = (u, refl, subst (λ x. e ≤ℤ x) (some-injective c) h)

module _ {F : Type 0} (config : LadderConfig) (now : ℤ) (db : Db F) (b : TierBucket F)
    (time : IsI64 b.bucket_start_ms) where
  above_min : i64_min <ℤ end_of l2 b
  unfolding resolution_ms
  above_min = later-above_min b.bucket_start_ms time

  -- what a cutoff that an end does not pass is made of
  ends_by-parts :
      (k dependent : ℤ)
      → ends_by l2 (min_ℤ k dependent) b ≡ true
      → (end_of l2 b ≤ℤ k) × (end_of l2 b ≤ℤ dependent)
  unfolding ends_by min_ℤ
  ends_by-parts k dependent h = (ground arith, ground arith)

  pub cutoff-MayGo :
      (v3 v4 : Option ℤ)
      → Read db.l3_folded_until_ms v3
      → Read db.l4_folded_until_ms v4
      → ends_by l2 (l2_cutoff config now v3 v4) b ≡ true
      → MayGo config now db b
  unfolding l2_cutoff
  cutoff-MayGo v3 v4 r3 r4 h =
      let d4 = if is_some config.l4 then required_watermark v4 else i64_max in
      let dependent = if is_some config.l3 then required_watermark v3 else d4 in
      let (is_old, below) = ends_by-parts (saturating_sub now config.l2_keep_ms) dependent h in
      record {
        is_old = is_old;
        in_l3 = λ e. required-some db.l3_folded_until_ms v3 (end_of l2 b) r3 above_min (
            subst (λ x. end_of l2 b ≤ℤ x) (if_on (is_some config.l3) (required_watermark v3) d4 e)
              below);
        in_l4 = λ e e'. required-some db.l4_folded_until_ms v4 (end_of l2 b) r4 above_min (
            subst (λ x. end_of l2 b ≤ℤ x)
              (if_off (is_some config.l3) (required_watermark v3) d4 e
                ∙ if_on (is_some config.l4) (required_watermark v4) i64_max e')
              below);
      }
