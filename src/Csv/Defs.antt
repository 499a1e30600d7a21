-- ===== src/Csv/Defs.antt =====
-- `csv_field`, `write_csv_record` and `parse_rfc4180`.
use tinytop.Prelude.{
  ℕ, Bool, true, false, not, ◌&&◌, ◌||◌, Option, none, some, List, [], ◌∷◌, ◌++◌, ◌==◌,
  if◌then◌else◌, any_of,
}

abbrev pub quote : ℕ
quote = b'"'

abbrev pub comma : ℕ
comma = b','

abbrev pub cr : ℕ
cr = 13

abbrev pub lf : ℕ
lf = 10

abbrev pub Text : Type 0
Text = List ℕ

-- a field that has one of the four characters is quoted
unfoldable pub needs_quotes : Text → Bool
needs_quotes raw = any_of (λ c. c == comma || c == quote || c == cr || c == lf) raw

-- `replace('"', "\"\"")`
unfoldable pub escape : Text → Text
escape [] = []
escape (c ∷ cs) = if c == quote then quote ∷ quote ∷ escape cs else c ∷ escape cs

unfoldable pub csv_field : Text → Text
unfolding needs_quotes escape
csv_field raw = if needs_quotes raw then quote ∷ (escape raw ++ quote ∷ []) else raw

-- the fields after the first, and the end of the record
unfoldable pub write_fields : List Text → Text
unfolding csv_field
write_fields [] = cr ∷ lf ∷ []
write_fields (f ∷ fs) = comma ∷ (csv_field f ++ write_fields fs)

unfoldable pub write_csv_record : List Text → Text
unfolding write_fields
write_csv_record [] = cr ∷ lf ∷ []
write_csv_record (f ∷ fs) = csv_field f ++ write_fields fs

-- the header and the rows of a file, one after the other
unfoldable pub write_all : List (List Text) → Text
unfolding write_csv_record
write_all [] = []
write_all (r ∷ rs) = write_csv_record r ++ write_all rs

-- the variables of the loop of `parse_rfc4180`
pub record State : Type 0 where
  pub rows : List (List Text)
  pub row : List Text
  pub field : Text
  pub quoted : Bool
  pub after_closing_quote : Bool

abbrev pub initial : State
initial = record { rows = []; row = []; field = []; quoted = false; after_closing_quote = false }

abbrev is_nil {ℓ} : {A : Type ℓ} → List A → Bool
is_nil [] = true
is_nil (x ∷ xs) = false

-- after the loop: an unfinished record is an error
unfoldable pub finish : State → Option (List (List Text))
finish s = if s.quoted || not (is_nil s.field) || not (is_nil s.row) then none else some s.rows

-- `row.push(take(field))`
unfoldable pub end_field : State → State
end_field s = record s { row = s.row ++ s.field ∷ []; field = []; after_closing_quote = false }

-- `row.push(take(field)); rows.push(take(row))`
unfoldable pub end_record : State → State
end_record s = record s {
  rows = s.rows ++ (s.row ++ s.field ∷ []) ∷ [];
  row = [];
  field = [];
  after_closing_quote = false;
}

abbrev pub push : State → ℕ → State
push s c = record s { field = s.field ++ c ∷ [] }

-- The loop. `none` stands for each of the errors.
unfoldable pub parse_from : State → Text → Option (List (List Text))
unfolding finish end_field end_record
parse_from s [] = finish s
parse_from s (ch ∷ []) =
    if s.quoted
    then (if ch == quote
        then finish (record s { quoted = false; after_closing_quote = true })
        else finish (push s ch))
    else if s.after_closing_quote && not (ch == comma || ch == cr)
    then none
    else if ch == quote
    then (if is_nil s.field then finish (record s { quoted = true }) else none)
    else if ch == comma
    then finish (end_field s)
    else if ch == cr || ch == lf
    then none
    else finish (push s ch)
parse_from s (ch ∷ next ∷ rest) =
    let closed =
      parse_from (record s { quoted = false; after_closing_quote = true }) (next ∷ rest) in
    let doubled = parse_from (push s quote) rest in
    let pushed = parse_from (push s ch) (next ∷ rest) in
    let opened = parse_from (record s { quoted = true }) (next ∷ rest) in
    let ended = parse_from (end_field s) (next ∷ rest) in
    let recorded = parse_from (end_record s) rest in
    if s.quoted
    then (if ch == quote then (if next == quote then doubled else closed) else pushed)
    else if s.after_closing_quote && not (ch == comma || ch == cr)
    then none
    else if ch == quote
    then (if is_nil s.field then opened else none)
    else if ch == comma
    then ended
    else if ch == cr
    then (if next == lf then recorded else none)
    else if ch == lf
    then none
    else pushed

unfoldable pub parse_rfc4180 : Text → Option (List (List Text))
unfolding parse_from
parse_rfc4180 csv = parse_from initial csv
