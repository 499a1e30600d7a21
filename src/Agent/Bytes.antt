-- ===== src/Agent/Bytes.antt =====
-- Texts as the bytes of their UTF-8 form, and what writer.rs and otel.rs use of `str` on them.
use tinytop.Prelude.{
  ℕ, zero, suc, ◌+◌, ◌-◌, ◌*◌, Bool, true, ◌&&◌, ◌||◌, Option, none, some, List, [], ◌∷◌, ltb, leb,
  ◌==◌, if◌then◌else◌,
}
use tinytop.Prelude.Int.{ℤ, pos, negsuc, i64_top}

abbrev pub Bytes : Type 0
Bytes = List ℕ

-- `hex_value`, which both files have
unfoldable pub hex_value : ℕ → Option ℕ
hex_value c =
    if leb b'0' c && leb c b'9'
    then some (c - b'0')
    else if leb b'a' c && leb c b'f'
    then some (c - b'a' + 10)
    else if leb b'A' c && leb c b'F'
    then some (c - b'A' + 10)
    else none

abbrev is_continuation : ℕ → Bool
is_continuation c = leb 0x80 c && leb c 0xbf

-- the second byte that may follow the first of three or four
abbrev second_of : ℕ → ℕ → Bool
second_of c d =
    if c == 0xe0
    then leb 0xa0 d && leb d 0xbf
    else if c == 0xed
    then leb 0x80 d && leb d 0x9f
    else if c == 0xf0
    then leb 0x90 d && leb d 0xbf
    else if c == 0xf4
    then leb 0x80 d && leb d 0x8f
    else is_continuation d

-- what `String::from_utf8` accepts
unfoldable pub is_utf8 : Bytes → Bool
is_utf8 [] = true
is_utf8 (c ∷ []) = ltb c 0x80
is_utf8 (c ∷ d ∷ []) =
    let rest = is_utf8 (d ∷ []) in
    if ltb c 0x80 then rest else leb 0xc2 c && leb c 0xdf && is_continuation d
is_utf8 (c ∷ d ∷ e ∷ []) =
    let one = is_utf8 (d ∷ e ∷ []) in
    let two = is_utf8 (e ∷ []) in
    if ltb c 0x80
    then one
    else if leb 0xc2 c && leb c 0xdf
    then is_continuation d && two
    else leb 0xe0 c && leb c 0xef && second_of c d && is_continuation e
is_utf8 (c ∷ d ∷ e ∷ f ∷ rest) =
    let one = is_utf8 (d ∷ e ∷ f ∷ rest) in
    let two = is_utf8 (e ∷ f ∷ rest) in
    let three = is_utf8 (f ∷ rest) in
    let four = is_utf8 rest in
    if ltb c 0x80
    then one
    else if leb 0xc2 c && leb c 0xdf
    then is_continuation d && two
    else if leb 0xe0 c && leb c 0xef
    then second_of c d && is_continuation e && three
    else leb 0xf0 c && leb c 0xf4 && second_of c d && is_continuation e && is_continuation f && four

-- `split_once` at a byte
unfoldable pub split_once : ℕ → Bytes → Option (Bytes × Bytes)
split_once p [] = none
split_once p (c ∷ s) =
    let rest = split_once p s in
    if c == p then some ([], s) else elim rest [ none ↦ none | some (a, b) ↦ some (c ∷ a, b) ]

-- the digits of `i64::from_str`, most significant first
unfoldable pub digits : ℕ → Bytes → Option ℕ
digits n [] = some n
digits n (c ∷ s) =
    let rest = digits (n * 10 + (c - b'0')) s in if leb b'0' c && leb c b'9' then rest else none

-- the bounds of `i64`, which `checked_mul` and `checked_add` keep
unfoldable pub positive : Option ℕ → Option ℤ
positive none = none
positive (some n) = if leb n i64_top then some (pos n) else none

unfoldable pub negative : Option ℕ → Option ℤ
negative none = none
negative (some zero) = some (pos 0)
negative (some (suc n)) = if leb n i64_top then some (negsuc n) else none

-- `str::parse::<i64>`
unfoldable pub parse_i64 : Bytes → Option ℤ
unfolding digits positive negative
parse_i64 [] = none
parse_i64 (c ∷ []) = if c == b'+' || c == b'-' then none else positive (digits 0 (c ∷ []))
parse_i64 (c ∷ d ∷ s) =
    if c == b'+'
    then positive (digits 0 (d ∷ s))
    else if c == b'-'
    then negative (digits 0 (d ∷ s))
    else positive (digits 0 (c ∷ d ∷ s))
