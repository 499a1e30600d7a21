-- ===== src/Prelude/Int.antt =====
-- Signed integers over the native numbers, and the saturating `i64` arithmetic of the program.
-- A sum or a difference is known to `omega` by its two parts, each a number with truncated `-`.
use Prim.Native.Nat.{ℕ, suc, ◌+◌, ◌-◌, ◌*◌, ◌/◌, ◌%◌, ◌≤◌, ◌<◌, min}
use mathlib.Core.Path.{◌≡◌, refl, sym, ap, ◌∙◌}
use mathlib.Core.Logic.{◌↔◌, ◌⊎◌, inl, inr}
use mathlib.Core.Bool.{Bool, true, ◌&&◌}
use native.Mathlib.Omega.{arith}
use tinytop.Prelude.Tests.{ltb, leb, ◌==◌, if◌then◌else◌}

-- `negsuc n` is -(n + 1).
pub data ℤ : Type 0 where
  pos : ℕ → ℤ
  negsuc : ℕ → ℤ

abbrev pub pos_part : ℤ → ℕ
pos_part (pos n) = n
pos_part (negsuc n) = 0

abbrev pub neg_part : ℤ → ℕ
neg_part (pos n) = 0
neg_part (negsuc n) = suc n

-- a - b, as an integer
abbrev pub sub_ℕ : ℕ → ℕ → ℤ
sub_ℕ a b = if leb b a then pos (a - b) else negsuc (b - a - 1)

infixl 65 ◌+ℤ◌ ◌-ℤ◌
infix 50 ◌≤ℤ◌ ◌<ℤ◌
unfoldable pub ◌+ℤ◌ : ℤ → ℤ → ℤ
a +ℤ b = sub_ℕ (pos_part a + pos_part b) (neg_part a + neg_part b)

unfoldable pub ◌-ℤ◌ : ℤ → ℤ → ℤ
a -ℤ b = sub_ℕ (pos_part a + neg_part b) (neg_part a + pos_part b)

-- the product with a constant that is not negative
unfoldable pub scale : ℤ → ℕ → ℤ
scale a k = sub_ℕ (pos_part a * k) (neg_part a * k)

-- `div_euclid` by a positive constant: the quotient is rounded down
unfoldable pub div_euclid : ℤ → ℕ → ℤ
div_euclid (pos n) d = pos (n / d)
div_euclid (negsuc n) d = negsuc (n / d)

abbrev pub ◌≤ℤ◌ : ℤ → ℤ → Type 0
a ≤ℤ b = pos_part a + neg_part b ≤ pos_part b + neg_part a

abbrev pub ◌<ℤ◌ : ℤ → ℤ → Type 0
a <ℤ b = pos_part a + neg_part b < pos_part b + neg_part a

abbrev pub leb_ℤ : ℤ → ℤ → Bool
leb_ℤ a b = leb (pos_part a + neg_part b) (pos_part b + neg_part a)

abbrev pub ltb_ℤ : ℤ → ℤ → Bool
ltb_ℤ a b = ltb (pos_part a + neg_part b) (pos_part b + neg_part a)

abbrev pub eqb_ℤ : ℤ → ℤ → Bool
eqb_ℤ a b = (pos_part a == pos_part b) && (neg_part a == neg_part b)

unfoldable pub min_ℤ : ℤ → ℤ → ℤ
min_ℤ a b = if leb_ℤ a b then a else b

unfoldable pub max_ℤ : ℤ → ℤ → ℤ
max_ℤ a b = if leb_ℤ a b then b else a

-- i64::MAX and i64::MIN
abbrev pub i64_top : ℕ
i64_top = 9223372036854775807

abbrev pub i64_max : ℤ
i64_max = pos i64_top

abbrev pub i64_min : ℤ
i64_min = negsuc i64_top

-- The value is one that an `i64` holds.
abbrev pub IsI64 : ℤ → Type 0
IsI64 a = (pos_part a ≤ i64_top) × (neg_part a ≤ suc i64_top)

-- what a saturating operation makes of the exact result
unfoldable pub saturate : ℤ → ℤ
saturate (pos n) = if leb n i64_top then pos n else i64_max
saturate (negsuc n) = if leb n i64_top then negsuc n else i64_min

-- 2^64
abbrev pub word : ℕ
word = 18446744073709551616

-- the `i64` that has the bit pattern of a number below 2^64
abbrev of_bits : ℕ → ℤ
of_bits r = if leb r i64_top then pos r else negsuc (word - r - 1)

-- the bit pattern of an integer, in 64 bits of two's complement
residue : ℤ → ℕ
residue (pos n) = n % word
residue (negsuc n) = word - 1 - n % word

-- what the `+` of a release build makes of the exact result
unfoldable pub wrap : ℤ → ℤ
unfolding residue
wrap a = of_bits (residue a)

pub wrap-eq_of_IsI64 : (a : ℤ) → IsI64 a → wrap a ≡ a
unfolding wrap
wrap-eq_of_IsI64 (pos n) h = ground arith
wrap-eq_of_IsI64 (negsuc n) h = ground arith

abbrev pub saturating_add : ℤ → ℤ → ℤ
saturating_add a b = saturate (a +ℤ b)

abbrev pub saturating_sub : ℤ → ℤ → ℤ
saturating_sub a b = saturate (a -ℤ b)

abbrev pub saturating_mul : ℤ → ℕ → ℤ
saturating_mul a k = saturate (scale a k)

module _ (a b : ℤ) where
  pub +ℤ_pos : pos_part (a +ℤ b) ≡ (pos_part a + pos_part b) - (neg_part a + neg_part b)
  unfolding ◌+ℤ◌
  +ℤ_pos = ground arith

  pub +ℤ_neg : neg_part (a +ℤ b) ≡ (neg_part a + neg_part b) - (pos_part a + pos_part b)
  unfolding ◌+ℤ◌
  +ℤ_neg = ground arith

  pub -ℤ_pos : pos_part (a -ℤ b) ≡ (pos_part a + neg_part b) - (neg_part a + pos_part b)
  unfolding ◌-ℤ◌
  -ℤ_pos = ground arith

  pub -ℤ_neg : neg_part (a -ℤ b) ≡ (neg_part a + pos_part b) - (pos_part a + neg_part b)
  unfolding ◌-ℤ◌
  -ℤ_neg = ground arith

  pub eq_of_parts : pos_part a + neg_part b ≡ pos_part b + neg_part a → a ≡ b
  eq_of_parts h = ground arith

  pub min_ℤ_le : (min_ℤ a b ≤ℤ a) × (min_ℤ a b ≤ℤ b)
  unfolding min_ℤ
  min_ℤ_le = ground arith

  pub min_ℤ_comm : min_ℤ a b ≡ min_ℤ b a
  unfolding min_ℤ
  min_ℤ_comm = ground arith

  pub max_ℤ_comm : max_ℤ a b ≡ max_ℤ b a
  unfolding max_ℤ
  max_ℤ_comm = ground arith

  pub min_ℤ_assoc : (c : ℤ) → min_ℤ (min_ℤ a b) c ≡ min_ℤ a (min_ℤ b c)
  unfolding min_ℤ
  min_ℤ_assoc c = ground arith

  pub max_ℤ_assoc : (c : ℤ) → max_ℤ (max_ℤ a b) c ≡ max_ℤ a (max_ℤ b c)
  unfolding max_ℤ
  max_ℤ_assoc c = ground arith

  pub le_max_ℤ : (a ≤ℤ max_ℤ a b) × (b ≤ℤ max_ℤ a b)
  unfolding max_ℤ
  le_max_ℤ = ground arith

  pub eqb_ℤ_iff : (eqb_ℤ a b ≡ true) ↔ (a ≡ b)
  eqb_ℤ_iff = ground arith

module _ (a : ℤ) where
  pub saturate_pos : pos_part (saturate a) ≡ min (pos_part a) i64_top
  unfolding saturate
  saturate_pos = ground arith

  pub saturate_neg : neg_part (saturate a) ≡ min (neg_part a) (suc i64_top)
  unfolding saturate
  saturate_neg = ground arith

  pub saturate-IsI64 : IsI64 (saturate a)
  saturate-IsI64 = omega (arith, saturate_pos, saturate_neg)

-- An integer has at most one part that is not zero.
pub one_part : (a : ℤ) → (pos_part a ≡ 0) ⊎ (neg_part a ≡ 0)
one_part (pos n) = inr refl
one_part (negsuc n) = inl refl

pub scale_pos : (a : ℤ) (k : ℕ) → pos_part (scale a k) ≡ pos_part a * k
unfolding scale
scale_pos (pos n) k = ground arith
scale_pos (negsuc n) k = ground arith

pub scale_neg : (a : ℤ) (k : ℕ) → neg_part (scale a k) ≡ neg_part a * k
unfolding scale
scale_neg (pos n) k = ground arith
scale_neg (negsuc n) k = ground arith

-- `+` on i64 in a release build
unfoldable pub wrapping_add : ℤ → ℤ → ℤ
wrapping_add a b = wrap (a +ℤ b)

residue-+ℤ : (a b : ℤ) → residue (a +ℤ b) ≡ (residue a + residue b) % word
unfolding residue ◌+ℤ◌
residue-+ℤ (pos a) (pos b) = ground arith
residue-+ℤ (pos a) (negsuc b) = ground arith
residue-+ℤ (negsuc a) (pos b) = ground arith
residue-+ℤ (negsuc a) (negsuc b) = ground arith

residue-of_bits : (r : ℕ) → r < word → residue (of_bits r) ≡ r
unfolding residue
residue-of_bits r h = ground arith

wrapping_add-eq_of_bits : (a b : ℤ) → wrapping_add a b ≡ of_bits ((residue a + residue b) % word)
unfolding wrapping_add wrap
wrapping_add-eq_of_bits a b = rw (← residue-+ℤ a b) refl

residue-wrapping_add : (a b : ℤ) → residue (wrapping_add a b) ≡ (residue a + residue b) % word
residue-wrapping_add a b =
    rw (wrapping_add-eq_of_bits a b)
      (residue-of_bits ((residue a + residue b) % word) (omega arith))

pub wrapping_add_comm : (a b : ℤ) → wrapping_add a b ≡ wrapping_add b a
wrapping_add_comm a b = simp wrapping_add-eq_of_bits (ap of_bits (omega arith))

pub wrapping_add_assoc :
    (a b c : ℤ) → wrapping_add (wrapping_add a b) c ≡ wrapping_add a (wrapping_add b c)
wrapping_add_assoc a b c =
    wrapping_add-eq_of_bits (wrapping_add a b) c
    ∙ ap of_bits (omega (arith, residue-wrapping_add a b, residue-wrapping_add b c))
    ∙ sym (wrapping_add-eq_of_bits a (wrapping_add b c))

pub ruleset int_laws = (
  arith, +ℤ_pos, +ℤ_neg, -ℤ_pos, -ℤ_neg, saturate_pos, saturate_neg, scale_pos, scale_neg,
  eq_of_parts,
)
