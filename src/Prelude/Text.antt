-- ===== src/Prelude/Text.antt =====
-- Texts as lists of code points, and the operations of `str` that the program uses.
use Prim.Native.Char.{code}
use Prim.Native.String.{String}
use tinytop.Prelude.{
  ℕ, ◌+◌, ◌≡◌, ◌≢◌, All, refl, ◌↔◌, Bool, true, false, ◌&&◌, ◌||◌, Option, none, some, List, [],
  ◌∷◌, ◌==◌, ltb, leb, if◌then◌else◌, arith, any_of, inl, inr, Bool-cases,
}
use mathlib.Core.Path.{ap₂}

abbrev pub Text : Type 0
Text = List ℕ

abbrev pub codes : String → Text
codes String.[] = []
codes (String.◌∷◌ c s) = code c ∷ codes s

unfoldable pub text_eq : Text → Text → Bool
text_eq [] [] = true
text_eq [] (d ∷ t) = false
text_eq (c ∷ s) [] = false
text_eq (c ∷ s) (d ∷ t) = c == d && text_eq s t

pub text_eq_iff : (s t : Text) → (text_eq s t ≡ true) ↔ (s ≡ t)
unfolding text_eq
text_eq_iff [] [] = ((λ h. refl), (λ h. refl))
text_eq_iff [] (d ∷ t) = ((λ h. cc), (λ h. cc))
text_eq_iff (c ∷ s) [] = ((λ h. cc), (λ h. cc))
text_eq_iff (c ∷ s) (d ∷ t) = (
  (λ h. ap₂ ◌∷◌ (ground arith) ((text_eq_iff s t).0 (ground arith))),
  (λ h. ground (arith, (text_eq_iff s t).1)),
)

unfoldable pub contains : List Text → Text → Bool
unfolding text_eq
contains ts t = any_of (λ u. text_eq u t) ts

pub contains-ok : (ts : List Text) (t : Text) → (contains ts t ≡ false) ↔ All (λ u. u ≢ t) ts
unfolding contains
contains-ok [] t = ((λ h. tt), (λ h. refl))
contains-ok (u ∷ ts) t =
    let e = text_eq_iff u t in
    let ih = contains-ok ts t in
    elim (Bool-cases (text_eq u t)) [
      | inl same ↦ ((λ h. cc), (λ h. absurd (h.0 (e.0 same))))
      | inr other ↦
          ((λ h. ((λ p. cc (e.1 p)), ih.0 (ground (arith, other)))), (λ h. rw other (ih.1 h.1)))
    ]

-- the bytes of a code point in UTF-8, and of a text: `str::len`
unfoldable pub utf8_width : ℕ → ℕ
utf8_width c = if ltb c 0x80 then 1 else if ltb c 0x800 then 2 else if ltb c 0x1_0000 then 3 else 4

unfoldable pub byte_length : Text → ℕ
unfolding utf8_width
byte_length [] = 0
byte_length (c ∷ s) = utf8_width c + byte_length s

unfoldable pub is_lowercase : ℕ → Bool
is_lowercase c = leb b'a' c && leb c b'z'

unfoldable pub is_uppercase : ℕ → Bool
is_uppercase c = leb b'A' c && leb c b'Z'

unfoldable pub is_digit : ℕ → Bool
is_digit c = leb b'0' c && leb c b'9'

-- `char::is_control`
unfoldable pub is_control : ℕ → Bool
is_control c = ltb c 32 || leb 127 c && ltb c 160

-- `char::is_whitespace`
unfoldable pub is_whitespace : ℕ → Bool
is_whitespace c =
    leb 9 c && leb c 13
    || c == 32
    || c == 0x85
    || c == 0xa0
    || c == 0x1680
    || leb 0x2000 c && leb c 0x200a
    || c == 0x2028
    || c == 0x2029
    || c == 0x202f
    || c == 0x205f
    || c == 0x3000

unfoldable pub strip_prefix : Text → Text → Option Text
strip_prefix [] t = some t
strip_prefix (c ∷ s) [] = none
strip_prefix (c ∷ s) (d ∷ t) = if c == d then strip_prefix s t else none

-- what stands before the first character that passes the test: `split_once` or the whole
unfoldable pub before_first : (ℕ → Bool) → Text → Text
before_first p [] = []
before_first p (c ∷ s) = if p c then [] else c ∷ before_first p s

-- what stands before the last character that passes the test: `rsplit_once`
unfoldable pub before_last? : (ℕ → Bool) → Text → Option Text
before_last? p [] = none
before_last? p (c ∷ s) = elim (before_last? p s) [
  | some t ↦ some (c ∷ t)
  | none ↦ if p c then some [] else none
]

-- the parts between the characters that pass the test: `split`
unfoldable pub split : (ℕ → Bool) → Text → List Text
split p [] = [] ∷ []
split p (c ∷ s) = elim (split p s) [
  | [] ↦ (c ∷ []) ∷ []
  | part ∷ parts ↦ if p c then [] ∷ part ∷ parts else (c ∷ part) ∷ parts
]
