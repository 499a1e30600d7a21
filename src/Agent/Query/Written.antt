-- ===== src/Agent/Query/Written.antt =====
-- The written forms of a text, and that `decode_query_component` reads exactly these.
use tinytop.Prelude.{
  ℕ, ◌+◌, ◌*◌, ◌≡◌, ◌∙◌, ◌≢◌, ◌↔◌, inl, inr, refl, sym, true, Bool-cases, Option, none, some, [],
  ◌∷◌, ◌==◌, ==_iff, ok, arith,
}
use mathlib.Core.Path.{subst}
use tinytop.Agent.Bytes.{Bytes, hex_value, is_utf8}
use tinytop.Agent.Query.{
  percent, plain_byte, escaped, prepend, decode_bytes, from_utf8, decode_query_component,
}

-- The second text is a written form of the first: a space is a plus, any byte may be an escape, and
-- all bytes but plus and percent may stand for themselves.
pub data Writes : Bytes → Bytes → Type 0 where
  nothing : Writes [] []
  space : {c p : ℕ} {s e : Bytes} → c ≡ b' ' → p ≡ b'+' → Writes s e → Writes (c ∷ s) (p ∷ e)
  escape :
      {c p h l a b : ℕ} {s e : Bytes}
      → p ≡ percent
      → hex_value h ≡ some a
      → hex_value l ≡ some b
      → c ≡ a * 16 + b
      → Writes s e
      → Writes (c ∷ s) (p ∷ h ∷ l ∷ e)
  itself : {c : ℕ} {s e : Bytes} → c ≢ b'+' → c ≢ percent → Writes s e → Writes (c ∷ s) (c ∷ e)

some-injective : {A : Type 0} {a b : A} → some a ≡ some b → a ≡ b
some-injective e = cc

decode_bytes-plain :
    (c : ℕ) (e : Bytes)
    → c ≢ percent
    → decode_bytes (c ∷ e) ≡ prepend (plain_byte c) (decode_bytes e)
unfolding decode_bytes
decode_bytes-plain c [] h = ground arith
decode_bytes-plain c (d ∷ []) h = ground arith
decode_bytes-plain c (d ∷ f ∷ e) h = ground arith

decode_bytes-escape :
    (h l a b : ℕ) (s e : Bytes)
    → hex_value h ≡ some a
    → hex_value l ≡ some b
    → decode_bytes e ≡ some s
    → decode_bytes (percent ∷ h ∷ l ∷ e) ≡ some ((a * 16 + b) ∷ s)
unfolding decode_bytes
decode_bytes-escape h l a b s e eh el w = rw (eh, el, w) refl

decode_bytes-Writes : {s e : Bytes} → Writes s e → decode_bytes e ≡ some s
unfolding plain_byte prepend
decode_bytes-Writes nothing = unfold decode_bytes in refl
decode_bytes-Writes (space {c} {p} {s} {e} ec ep w) =
    rw (decode_bytes-plain p e (ground (arith, ep)), decode_bytes-Writes w) (ground (arith, ec, ep))
decode_bytes-Writes (escape {c} {p} {h} {l} {a} {b} {s} {e} ep eh el ec w) =
    rw (ep, ec) (decode_bytes-escape h l a b s e eh el (decode_bytes-Writes w))
decode_bytes-Writes (itself {c} {s} {e} np nc w) =
    rw (decode_bytes-plain c e nc, decode_bytes-Writes w) (ground (arith, np))

-- the written form of what is read
plain-Writes :
    (c : ℕ) (s e : Bytes) (r : Option Bytes)
    → c ≢ percent
    → ((t : Bytes) → r ≡ some t → Writes t e)
    → prepend (plain_byte c) r ≡ some s
    → Writes s (c ∷ e)
unfolding prepend plain_byte
plain-Writes c s e none nc k h = cc
plain-Writes c s e (some t) nc k h = elim (Bool-cases (c == b'+')) [
  | inl p ↦
      let q : b' ' ∷ t ≡ s = ground (arith, h, p) in
      subst (λ u. Writes u (c ∷ e)) q (space refl ((==_iff c b'+').0 p) (k t refl))
  | inr n ↦
      let q : c ∷ t ≡ s = ground (arith, h, n) in
      subst (λ u. Writes u (c ∷ e)) q (itself (ground (arith, n)) nc (k t refl))
]

escaped-Writes :
    (c h l : ℕ) (s e : Bytes) (a b : Option ℕ) (r : Option Bytes)
    → c ≡ percent
    → hex_value h ≡ a
    → hex_value l ≡ b
    → ((t : Bytes) → r ≡ some t → Writes t e)
    → escaped a b r ≡ some s
    → Writes s (c ∷ h ∷ l ∷ e)
unfolding escaped
escaped-Writes c h l s e none b r ec ea eb k q = cc
escaped-Writes c h l s e (some a) none r ec ea eb k q = cc
escaped-Writes c h l s e (some a) (some b) none ec ea eb k q = cc
escaped-Writes c h l s e (some a) (some b) (some t) ec ea eb k q =
    subst (λ u. Writes u (c ∷ h ∷ l ∷ e)) (some-injective q) (escape ec ea eb refl (k t refl))

escape-step :
    (c h l : ℕ) (e : Bytes)
    → (c == percent) ≡ true
    → decode_bytes (c ∷ h ∷ l ∷ e) ≡ escaped (hex_value h) (hex_value l) (decode_bytes e)
unfolding decode_bytes
escape-step c h l e p = rw p refl

read-Writes : (s e : Bytes) → decode_bytes e ≡ some s → Writes s e
unfolding decode_bytes
read-Writes s [] h = subst (λ u. Writes u []) (some-injective h) nothing
read-Writes s (c ∷ []) h = elim (Bool-cases (c == percent)) [
  | inl p ↦ absurd (ground (arith, h, p))
  | inr n ↦
      let nc : c ≢ percent = ground (arith, n) in
      plain-Writes c s [] (decode_bytes []) nc (λ t. read-Writes t [])
        (sym (decode_bytes-plain c [] nc) ∙ h)
]
read-Writes s (c ∷ d ∷ []) h = elim (Bool-cases (c == percent)) [
  | inl p ↦ absurd (ground (arith, h, p))
  | inr n ↦
      let nc : c ≢ percent = ground (arith, n) in
      plain-Writes c s (d ∷ []) (decode_bytes (d ∷ [])) nc (λ t. read-Writes t (d ∷ []))
        (sym (decode_bytes-plain c (d ∷ []) nc) ∙ h)
]
read-Writes s (c ∷ d ∷ f ∷ e) h = elim (Bool-cases (c == percent)) [
  | inl p ↦
      escaped-Writes c d f s e (hex_value d) (hex_value f) (decode_bytes e) ((==_iff c percent).0 p)
        refl refl (λ t. read-Writes t e) (sym (escape-step c d f e p) ∙ h)
  | inr n ↦
      let nc : c ≢ percent = ground (arith, n) in
      plain-Writes c s (d ∷ f ∷ e) (decode_bytes (d ∷ f ∷ e)) nc (λ t. read-Writes t (d ∷ f ∷ e))
        (sym (decode_bytes-plain c (d ∷ f ∷ e) nc) ∙ h)
]

from_utf8-ok :
    (field s e : Bytes) (r : Option Bytes)
    → (r ≡ some s ↔ Writes s e)
    → ((t : Bytes) → r ≡ some t → Writes t e)
    → (from_utf8 field r ≡ ok s) ↔ (Writes s e × (is_utf8 s ≡ true))
unfolding from_utf8
from_utf8-ok field s e none k r = ((λ h. cc), (λ h. cc (k.1 h.0)))
from_utf8-ok field s e (some t) k r = elim (Bool-cases (is_utf8 t)) [
  | inl v ↦ (
    (λ h.
        let q : t ≡ s = ground (arith, h, v) in
        (subst (λ u. Writes u e) q (r t refl), subst (λ u. is_utf8 u ≡ true) q v)),
    (λ h. let q : t ≡ s = some-injective (k.1 h.0) in rw q (rw h.1 refl)),
  )
  | inr v ↦ (
    (λ h. absurd (ground (arith, h, v))),
    (λ h.
        absurd
          (ground (arith, v, subst (λ u. is_utf8 u ≡ true) (sym (some-injective (k.1 h.0))) h.1))),
  )
]

-- A component is read as a text exactly if it is a written form of the text, and the text is UTF-8.
pub decode_query_component-ok :
    (field s e : Bytes)
    → (decode_query_component field e ≡ ok s) ↔ (Writes s e × (is_utf8 s ≡ true))
unfolding decode_query_component
decode_query_component-ok field s e =
    from_utf8-ok field s e (decode_bytes e) (read-Writes s e, decode_bytes-Writes)
      (λ t. read-Writes t e)
