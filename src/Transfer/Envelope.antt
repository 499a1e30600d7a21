-- ===== src/Transfer/Envelope.antt =====
-- Which envelopes an import accepts.
use tinytop.Prelude.{
  ◌≡◌, ◌↔◌, ◌≢◌, refl, sym, Bool, true, not, Bool-cases, inl, inr, Option, none, some, List, [],
  ◌∷◌, ◌++◌, map, keep_if, All, Listed, arith, unknown_key,
}
use tinytop.Prelude.Int.{ℤ, pos}
use tinytop.Prelude.Text.{Text, codes, contains, text_eq, text_eq_iff}
use tinytop.Prelude.Sort.{sort_by, insert_by}
use tinytop.Transfer.Json.{Json, Members, get, keys, object}
use tinytop.Transfer.Defs.{
  envelope_keys, validate_envelope, unknown_keys, version_errors, settings_errors, integer_at,
}

pub append-nil_parts : {A : Type 0} (xs ys : List A) → xs ++ ys ≡ [] → (xs ≡ []) × (ys ≡ [])
append-nil_parts [] ys h = (refl, h)
append-nil_parts (x ∷ xs) ys h = cc

module _ {A : Type 0} (before : A → A → Bool) where
  insert_by-nil : (x : A) (xs : List A) → insert_by before x xs ≢ []
  unfolding insert_by
  insert_by-nil x [] h = cc
  insert_by-nil x (y ∷ ys) h = elim (Bool-cases (before x y)) [
    | inl e ↦ ground (arith, h)
    | inr e ↦ ground (arith, h)
  ]

  sort_by-nil : (xs : List A) → sort_by before xs ≡ [] → xs ≡ []
  unfolding sort_by
  sort_by-nil [] h = refl
  sort_by-nil (x ∷ xs) h = absurd (insert_by-nil x (sort_by before xs) h)

map-nil : {A B : Type 0} (f : A → B) (xs : List A) → map f xs ≡ [] → xs ≡ []
map-nil f [] h = refl
map-nil f (x ∷ xs) h = cc

contains-Listed : (ts : List Text) (t : Text) → (contains ts t ≡ true) ↔ Listed t ts
unfolding contains
contains-Listed [] t = ((λ h. cc), (λ h. absurd h))
contains-Listed (u ∷ ts) t =
    let e = text_eq_iff u t in
    let ih = contains-Listed ts t in
    elim (Bool-cases (text_eq u t)) [
      | inl same ↦ ((λ h. inl (sym (e.0 same))), (λ h. rw same refl))
      | inr other ↦ (
        (λ h. inr (ih.0 (ground (arith, other, h)))),
        (λ h. elim h [ inl p ↦ cc (e.1 (sym p)) | inr l ↦ rw other (ih.1 l) ]),
      )
    ]

module _ {A : Type 0} (P : A → Type 0) (p : A → Bool) (spec : (a : A) → (p a ≡ true) ↔ P a) where
  none_left : (xs : List A) → keep_if (λ a. not (p a)) xs ≡ [] → All P xs
  none_left [] h = tt
  none_left (x ∷ xs) h = elim (Bool-cases (p x)) [
    | inl e ↦ ((spec x).0 e, none_left xs (ground (arith, h)))
    | inr e ↦ absurd (ground (arith, h))
  ]

  kept_none : (xs : List A) → All P xs → keep_if (λ a. not (p a)) xs ≡ []
  kept_none [] h = refl
  kept_none (x ∷ xs) h = rw ((spec x).1 h.0) (kept_none xs h.1)

version_errors-nil : (o : Option ℤ) → (version_errors o ≡ []) ↔ (o ≡ some (pos 1))
unfolding version_errors
version_errors-nil none = ((λ h. cc), (λ h. cc))
version_errors-nil (some v) = ((λ h. ground (arith, h)), (λ h. ground (arith, h)))

-- an object stands at the key
abbrev pub HoldsObject : Option Json → Type 0
HoldsObject value = (members : Members) × (value ≡ some (object members))

settings_errors-nil : (value : Option Json) → (settings_errors value ≡ []) ↔ HoldsObject value
unfolding settings_errors
settings_errors-nil none = ((λ h. cc), (λ (m, e). cc e))
settings_errors-nil (some Json.null) = ((λ h. cc), (λ (m, e). cc e))
settings_errors-nil (some (Json.boolean b)) = ((λ h. cc), (λ (m, e). cc e))
settings_errors-nil (some (Json.integer z)) = ((λ h. cc), (λ (m, e). cc e))
settings_errors-nil (some (Json.number t)) = ((λ h. cc), (λ (m, e). cc e))
settings_errors-nil (some (Json.text t)) = ((λ h. cc), (λ (m, e). cc e))
settings_errors-nil (some (Json.array t)) = ((λ h. cc), (λ (m, e). cc e))
settings_errors-nil (some (object o)) = ((λ h. (o, refl)), (λ h. refl))

unknown_keys-nil :
    (envelope : Members)
    → (unknown_keys envelope ≡ []) ↔ All (λ key. Listed key envelope_keys) (keys envelope)
unfolding unknown_keys
unknown_keys-nil envelope =
    let spec = contains-Listed envelope_keys in
    let kept = keep_if (λ key. not (contains envelope_keys key)) (keys envelope) in
    (
      (λ h.
          none_left (λ key. Listed key envelope_keys) (contains envelope_keys) spec (keys envelope)
            (sort_by-nil _ kept (map-nil unknown_key (sort_by _ kept) h))),
      (λ h.
          rw
            (kept_none (λ key. Listed key envelope_keys) (contains envelope_keys) spec
              (keys envelope) h)
            refl),
    )

-- the keys of the envelope are known, its version is 1 and its settings are an object
pub record IsEnvelope (envelope : Members) : Type 0 where
  pub allowed : All (λ key. Listed key envelope_keys) (keys envelope)
  pub version : integer_at (get envelope (codes "tinytopConfigVersion")) ≡ some (pos 1)
  pub settings : HoldsObject (get envelope (codes "settings"))

-- An envelope is accepted exactly if every key of it is one of the four of an export, the version is
-- the integer 1, and the settings are an object.
validate_envelope-nil :
    (envelope : Members) → (validate_envelope envelope ≡ []) ↔ IsEnvelope envelope
unfolding validate_envelope
validate_envelope-nil envelope =
    let version = integer_at (get envelope (codes "tinytopConfigVersion")) in
    let value = get envelope (codes "settings") in
    (
      (λ h.
          let (k, r) =
            append-nil_parts (unknown_keys envelope)
              (version_errors version ++ settings_errors value) h in
          let (v, s) = append-nil_parts (version_errors version) (settings_errors value) r in
          record {
            allowed = (unknown_keys-nil envelope).0 k;
            version = (version_errors-nil version).0 v;
            settings = (settings_errors-nil value).0 s;
          }),
      (λ h.
          rw
            (
              (unknown_keys-nil envelope).1 h.allowed,
              (version_errors-nil version).1 h.version,
              (settings_errors-nil value).1 h.settings,
            )
            refl),
    )
