-- ===== src/Csv/RoundTrip.antt =====
-- What is written is parsed back.
use tinytop.Prelude.{
  ℕ, ◌≡◌, refl, ◌∙◌, inl, inr, Bool, true, false, ◌||◌, Bool-cases, some, List, [], ◌∷◌, ◌++◌, ◌==◌,
  arith, any_of, All,
}
use mathlib.Core.List.{append-nil, append_assoc}
use tinytop.Csv.Defs.{
  Text, quote, comma, cr, lf, State, needs_quotes, escape, csv_field, write_fields, write_all,
  parse_from, parse_rfc4180,
}

abbrev st : List (List Text) → List Text → Text → Bool → Bool → State
st rows row field quoted after = record {
  rows = rows;
  row = row;
  field = field;
  quoted = quoted;
  after_closing_quote = after;
}

abbrev special : ℕ → Bool
special c = c == comma || c == quote || c == cr || c == lf

module _ (rows : List (List Text)) (row : List Text) where
  -- one plain character before a text that is not empty
  plain_step :
      (g : Text) (c : ℕ) (f : Text) (d : ℕ) (rest : Text)
      → special c ≡ false
      → parse_from (st rows row g false false) (c ∷ (f ++ d ∷ rest))
        ≡ parse_from (st rows row (g ++ c ∷ []) false false) (f ++ d ∷ rest)
  unfolding parse_from
  plain_step g c [] d rest h = ground arith
  plain_step g c (x ∷ f) d rest h = ground arith

  plain_field :
      (g f : Text) (d : ℕ) (rest : Text)
      → any_of special f ≡ false
      → parse_from (st rows row g false false) (f ++ d ∷ rest)
        ≡ parse_from (st rows row (g ++ f) false false) (d ∷ rest)
  plain_field g [] d rest h = rw append-nil refl
  plain_field g (c ∷ f) d rest h =
      plain_step g c f d rest (ground arith)
      ∙ plain_field (g ++ c ∷ []) f d rest (ground arith)
      ∙ rw append_assoc refl

  -- one character inside quotes, not a quote
  quoted_step :
      (g : Text) (c : ℕ) (f : Text) (rest : Text)
      → (c == quote) ≡ false
      → parse_from (st rows row g true false) (c ∷ (f ++ quote ∷ rest))
        ≡ parse_from (st rows row (g ++ c ∷ []) true false) (f ++ quote ∷ rest)
  unfolding parse_from
  quoted_step g c [] rest h = ground arith
  quoted_step g c (x ∷ f) rest h = ground arith

  -- a doubled quote
  doubled_step :
      (g rest : Text)
      → parse_from (st rows row g true false) (quote ∷ quote ∷ rest)
        ≡ parse_from (st rows row (g ++ quote ∷ []) true false) rest
  unfolding parse_from
  doubled_step g rest = refl

  closing_step :
      (g : Text) (d : ℕ) (rest : Text)
      → (d == quote) ≡ false
      → parse_from (st rows row g true false) (quote ∷ d ∷ rest)
        ≡ parse_from (st rows row g false true) (d ∷ rest)
  unfolding parse_from
  closing_step g d rest h = ground arith

  quoted_field :
      (g f : Text) (d : ℕ) (rest : Text)
      → (d == quote) ≡ false
      → parse_from (st rows row g true false) (escape f ++ quote ∷ d ∷ rest)
        ≡ parse_from (st rows row (g ++ f) false true) (d ∷ rest)
  unfolding escape
  quoted_field g [] d rest h = closing_step g d rest h ∙ rw append-nil refl
  quoted_field g (c ∷ f) d rest h = elim (Bool-cases (c == quote)) [
    | inl e ↦
        let e' : c ≡ quote = ground arith in
        rw e (
          doubled_step g (escape f ++ quote ∷ d ∷ rest)
          ∙ quoted_field (g ++ quote ∷ []) f d rest h
          ∙ rw (append_assoc, e') refl)
    | inr e ↦ rw e (
        quoted_step g c (escape f) (d ∷ rest) e
        ∙ quoted_field (g ++ c ∷ []) f d rest h
        ∙ rw append_assoc refl)
  ]

  opening_step :
      (f rest : Text)
      → parse_from (st rows row [] false false) (quote ∷ (f ++ quote ∷ rest))
        ≡ parse_from (st rows row [] true false) (f ++ quote ∷ rest)
  unfolding parse_from
  opening_step [] rest = refl
  opening_step (x ∷ f) rest = refl

  -- a written field, up to the character that ends it
  field_step :
      (f : Text) (d : ℕ) (rest : Text)
      → (d == quote) ≡ false
      → parse_from (st rows row [] false false) (csv_field f ++ d ∷ rest)
        ≡ parse_from (st rows row f false (needs_quotes f)) (d ∷ rest)
  unfolding csv_field
  field_step f d rest h = elim (Bool-cases (any_of special f)) [
    | inl e ↦ rw (e, append_assoc) (opening_step (escape f) (d ∷ rest) ∙ quoted_field [] f d rest h)
    | inr e ↦ rw e (plain_field [] f d rest e)
  ]

  comma_step :
      (f : Text) (a : Bool) (g : Text) (d : ℕ) (rest : Text)
      → parse_from (st rows row f false a) (comma ∷ (g ++ d ∷ rest))
        ≡ parse_from (st rows (row ++ f ∷ []) [] false false) (g ++ d ∷ rest)
  unfolding parse_from
  comma_step f true [] d rest = refl
  comma_step f false [] d rest = refl
  comma_step f true (x ∷ g) d rest = refl
  comma_step f false (x ∷ g) d rest = refl

  record_step :
      (f : Text) (a : Bool) (rest : Text)
      → parse_from (st rows row f false a) (cr ∷ lf ∷ rest)
        ≡ parse_from (st (rows ++ (row ++ f ∷ []) ∷ []) [] [] false false) rest
  unfolding parse_from
  record_step f true rest = refl
  record_step f false rest = refl

  -- a comma and the next field
  next_field :
      (f : Text) (a : Bool) (g : Text) (fs : List Text) (more : Text)
      → parse_from (st rows row f false a) (write_fields (g ∷ fs) ++ more)
        ≡ parse_from
            (st rows (row ++ f ∷ []) [] false false)
            (csv_field g ++ (write_fields fs ++ more))
  unfolding write_fields
  next_field f a g [] more = rw append_assoc (comma_step f a (csv_field g) cr (lf ∷ more))
  next_field f a g (h ∷ fs) more =
      rw append_assoc
        (comma_step f a (csv_field g) comma ((csv_field h ++ write_fields fs) ++ more))

-- the rest of a record, from the start of a field
fields_step :
    (rows : List (List Text)) (row : List Text) (f : Text) (fs : List Text) (more : Text)
    → parse_from (st rows row [] false false) (csv_field f ++ (write_fields fs ++ more))
      ≡ parse_from (st (rows ++ (row ++ f ∷ fs) ∷ []) [] [] false false) more
fields_step rows row f [] more =
    unfold write_fields in
    (field_step rows row f cr (lf ∷ more) refl ∙ record_step rows row f (needs_quotes f) more)
fields_step rows row f (g ∷ fs) more =
    first
    ∙ next_field rows row f (needs_quotes f) g fs more
    ∙ fields_step rows (row ++ f ∷ []) g fs more
    ∙ rw append_assoc refl
  where
    first :
        parse_from (st rows row [] false false) (csv_field f ++ (write_fields (g ∷ fs) ++ more))
        ≡ parse_from (st rows row f false (needs_quotes f)) (write_fields (g ∷ fs) ++ more)
    first =
        unfold write_fields in
        field_step rows row f comma ((csv_field g ++ write_fields fs) ++ more) refl

abbrev pub HasField : List Text → Type 0
HasField [] = ⊥
HasField (f ∷ fs) = Unit

parsed_records :
    (rows records : List (List Text))
    → All HasField records
    → parse_from (st rows [] [] false false) (write_all records) ≡ some (rows ++ records)
unfolding write_all
parsed_records rows [] h = unfold parse_from in rw append-nil refl
parsed_records rows ([] ∷ rs) h = absurd h.0
parsed_records rows ((f ∷ fs) ∷ rs) h = rw append_assoc (
    fields_step rows [] f fs (write_all rs)
    ∙ parsed_records (rows ++ (f ∷ fs) ∷ []) rs h.1
    ∙ rw append_assoc refl)

-- Any records of at least one field, whatever characters the fields hold, are parsed back from the
-- text that is written for them.
pub parse_rfc4180-write_all :
    (records : List (List Text))
    → All HasField records
    → parse_rfc4180 (write_all records) ≡ some records
unfolding parse_rfc4180
parse_rfc4180-write_all records h = parsed_records [] records h
