-- ===== src/Settings/Thermal.antt =====
-- agent/crates/tinytop-store/src/thermal_settings.rs: the chips that a user may add.
use tinytop.Prelude.{
  ℕ, ◌<◌, ◌≤◌, ◌≡◌, ◌≢◌, ◌⊎◌, refl, ◌↔◌, Bool, true, false, not, ◌||◌, List, [], ◌∷◌, ltb, ◌==◌,
  if◌then◌else◌, Result, ok, err, validation, too_many, malformed, reserved, duplicate, refuse_if,
  ◌>>◌, all_of, length, arith, All,
}
use tinytop.Prelude.Text.{Text, codes, contains, contains-ok, byte_length, is_lowercase, is_digit}

pub record ThermalSettings : Type 0 where
  pub enabled : Bool
  pub extra_chips : List Text

abbrev pub default_thermal : ThermalSettings
default_thermal = record { enabled = false; extra_chips = [] }

-- `RESERVED_EXTRA_CHIPS`
abbrev pub reserved_extra_chips : List Text
reserved_extra_chips = codes "amdgpu" ∷ codes "i915" ∷ codes "nvme" ∷ []

unfoldable pub is_nil : Text → Bool
is_nil [] = true
is_nil (c ∷ s) = false

-- an entry that does not match ^[a-z0-9_]{1,32}$
unfoldable pub malformed_chip : Text → Bool
malformed_chip chip =
    is_nil chip
    || ltb 32 (byte_length chip)
    || not (all_of (λ c. is_lowercase c || is_digit c || c == b'_') chip)

-- the loop over the chips; `seen` holds those before
unfoldable pub validate_chips : List Text → List Text → Result (Unit {0})
validate_chips seen [] = ok tt
validate_chips seen (chip ∷ chips) =
    let rest = validate_chips (chip ∷ seen) chips in
    if malformed_chip chip
    then err (validation (malformed "thermal.extraChips"))
    else if contains reserved_extra_chips chip
    then err (validation (reserved "thermal.extraChips"))
    else if contains seen chip
    then err (validation (duplicate "thermal.extraChips"))
    else rest

unfoldable pub validate_thermal : ThermalSettings → Result (Unit {0})
unfolding validate_chips
validate_thermal self = do
  refuse_if (ltb 16 (length self.extra_chips)) (too_many "thermal.extraChips")
  validate_chips [] self.extra_chips

-- the characters of a chip name, and the names: one to 32 of them
abbrev pub IsChipChar : ℕ → Type 0
IsChipChar c = ((b'a' ≤ c) × (c ≤ b'z')) ⊎ ((b'0' ≤ c) × (c ≤ b'9')) ⊎ (c ≡ b'_')

pub record IsChipName (chip : Text) : Type 0 where
  pub some_char : 0 < length chip
  pub short : length chip ≤ 32
  pub chars : All IsChipChar chip

chars-ok :
    (s : Text)
    → (all_of (λ c. is_lowercase c || is_digit c || c == b'_') s ≡ true) ↔ All IsChipChar s
unfolding is_lowercase is_digit
chars-ok [] = ((λ h. tt), (λ h. refl))
chars-ok (c ∷ s) = (
  (λ h. (ground arith, (chars-ok s).0 (ground arith))),
  (λ h. ground (arith, (chars-ok s).1 h.1)),
)

-- such characters take one byte
byte_length-eq-length : (s : Text) → All IsChipChar s → byte_length s ≡ length s
unfolding byte_length
byte_length-eq-length [] h = refl
byte_length-eq-length (c ∷ s) h = ground (arith, byte_length-eq-length s h.1)

malformed_chip-ok : (chip : Text) → (malformed_chip chip ≡ false) ↔ IsChipName chip
unfolding malformed_chip is_nil
malformed_chip-ok [] = ((λ h. cc), (λ h. absurd (omega (arith, h.some_char))))
malformed_chip-ok (c ∷ s) =
    let v = chars-ok (c ∷ s) in
    (
      (λ h.
          let chars : All IsChipChar (c ∷ s) = v.0 (ground arith) in
          record {
            some_char = omega arith;
            short = ground (arith, byte_length-eq-length (c ∷ s) chars);
            chars = chars;
          }),
      (λ h. ground (arith, v.1 h.chars, h.short, byte_length-eq-length (c ∷ s) h.chars)),
    )

-- every chip is well formed, not reserved, and not among those before it
abbrev pub GoodChips : List Text → List Text → Type 0
GoodChips seen [] = Unit
GoodChips seen (chip ∷ chips) =
    IsChipName chip
    × All (λ u. u ≢ chip) reserved_extra_chips
    × All (λ u. u ≢ chip) seen
    × GoodChips (chip ∷ seen) chips

validate_chips-ok :
    (seen chips : List Text) → (validate_chips seen chips ≡ ok tt) ↔ GoodChips seen chips
unfolding validate_chips
validate_chips-ok seen [] = ((λ h. tt), (λ h. refl))
validate_chips-ok seen (chip ∷ chips) =
    let ih = validate_chips-ok (chip ∷ seen) chips in
    let name = malformed_chip-ok chip in
    let free = contains-ok reserved_extra_chips chip in
    let new = contains-ok seen chip in
    (
      (λ h. (
        name.0 (ground arith),
        free.0 (ground arith),
        new.0 (ground arith),
        ih.0 (ground arith),
      )),
      (λ h. ground (arith, name.1 h.0, free.1 h.1, new.1 h.2, ih.1 h.3)),
    )

-- The thermal settings are accepted exactly with at most 16 chips, each of one to 32 lower-case
-- letters, digits or underscores, none of them reserved and none the same as an earlier one.
pub validate_thermal-ok :
    (s : ThermalSettings)
    → (validate_thermal s ≡ ok tt) ↔ ((length s.extra_chips ≤ 16) × GoodChips [] s.extra_chips)
unfolding validate_thermal
validate_thermal-ok s =
    let v = validate_chips-ok [] s.extra_chips in
    ((λ h. (ground arith, v.0 (ground arith))), (λ h. ground (arith, v.1 h.1)))
