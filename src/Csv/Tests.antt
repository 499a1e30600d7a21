-- ===== src/Csv/Tests.antt =====
-- The round trip of a record with a quote, an empty field and a line break.
use tinytop.Prelude.{◌≡◌, refl, some, List, [], ◌∷◌}
use tinytop.Prelude.Text.{Text}
use tinytop.Csv.Defs.{parse_rfc4180, write_all, quote, comma, cr, lf}
use tinytop.Csv.RoundTrip.{parse_rfc4180-write_all}

abbrev sample : List (List Text)
sample = ((65 ∷ []) ∷ (quote ∷ 66 ∷ []) ∷ []) ∷ ([] ∷ (comma ∷ cr ∷ lf ∷ []) ∷ []) ∷ []

sample_round : parse_rfc4180 (write_all sample) ≡ some sample
unfolding parse_rfc4180 write_all
sample_round = refl

parse_rfc4180-write_all_example : parse_rfc4180 (write_all sample) ≡ some sample
parse_rfc4180-write_all_example = parse_rfc4180-write_all sample (tt, (tt, tt))
