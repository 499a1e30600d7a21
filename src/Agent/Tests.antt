-- ===== src/Agent/Tests.antt =====
-- A query string of the points route, and two iterations of the export loop.
use tinytop.Prelude.{refl, true, none, some, List, [], ◌∷◌, ok, ◌↔◌, ◌≡◌, arith}
use tinytop.Prelude.Text.{codes}
use tinytop.Prelude.Int.{pos, saturate, min_ℤ, max_ℤ, ◌-ℤ◌, scale}
use tinytop.Settings.Otel.{OtelSettings, default_otel}
use tinytop.Points.Defs.{HistoryPointsQuery, auto}
use tinytop.Agent.Bytes.{Bytes, is_utf8, hex_value}
use tinytop.Agent.Query.{
  Pair, decode_query_component, parse_query_pairs, HistoryPointsParams, history_points_query,
}
use tinytop.Agent.Query.Written.{Writes, nothing, escape, itself, decode_query_component-ok}
use tinytop.Agent.Query.RoundTrip.{WritesPair, join_query, parse_query_pairs-join_query}
use tinytop.Agent.Query.Bounds.{IsBounded, history_points_query-IsBounded}
use tinytop.Agent.Export.{Turn, run, initial, from_settings}
use tinytop.Agent.Export.Allowed.{Allowed, view}
use tinytop.Agent.Export.Run.{run-Allowed}

decode_query_component-ok_example :
    (decode_query_component (codes "mount") (codes "a+%2f") ≡ ok (codes "a /"))
    ↔ (Writes (codes "a /") (codes "a+%2f") × (is_utf8 (codes "a /") ≡ true))
decode_query_component-ok_example =
    decode_query_component-ok (codes "mount") (codes "a /") (codes "a+%2f")

abbrev pairs : List Pair
pairs = (codes "m", codes "&") ∷ (codes "k", []) ∷ []

abbrev texts : List Bytes
texts = codes "m=%26" ∷ codes "k=" ∷ []

two_read : hex_value b'2' ≡ some 2
unfolding hex_value
two_read = refl

six_read : hex_value b'6' ≡ some 6
unfolding hex_value
six_read = refl

m_written : WritesPair (codes "m", codes "&") (codes "m=%26")
m_written = record {
  name = codes "m";
  value = codes "%26";
  is_joined = refl;
  writes_name = itself (omega arith) (omega arith) nothing;
  writes_value = escape {a = 2} {b = 6} refl two_read six_read refl nothing;
  valid_name = unfold is_utf8 in refl;
  valid_value = unfold is_utf8 in refl;
  no_equals = (omega arith, tt);
  no_ampersand = ((omega arith, tt), (omega arith, (omega arith, (omega arith, tt))));
}

k_written : WritesPair (codes "k", []) (codes "k=")
k_written = record {
  name = codes "k";
  value = [];
  is_joined = refl;
  writes_name = itself (omega arith) (omega arith) nothing;
  writes_value = nothing;
  valid_name = unfold is_utf8 in refl;
  valid_value = unfold is_utf8 in refl;
  no_equals = (omega arith, tt);
  no_ampersand = ((omega arith, tt), tt);
}

parse_query_pairs-join_query_example : parse_query_pairs (some (join_query texts)) ≡ ok pairs
parse_query_pairs-join_query_example =
    parse_query_pairs-join_query pairs texts (m_written, (k_written, tt))

abbrev between : HistoryPointsParams
between = record {
  limit = some (pos 20_000);
  window_seconds = some (pos 60);
  since_ms = some (pos 40_000);
  until_ms = some (pos 90_000);
  source = none;
}

abbrev between_query : HistoryPointsQuery
between_query = record {
  since_ms = some (pos 40_000);
  until_ms = some (pos 90_000);
  limit = some (pos 10_000);
  source = auto;
}

between_accepted : history_points_query between (pos 100_000) ≡ ok between_query
unfolding history_points_query saturate min_ℤ max_ℤ ◌-ℤ◌ scale
between_accepted = refl

history_points_query-IsBounded_example : IsBounded between between_query
history_points_query-IsBounded_example =
    history_points_query-IsBounded between (pos 100_000) between_query between_accepted

abbrev exporting : OtelSettings
exporting = record default_otel { enabled = true }

abbrev exporting_turn : Turn
exporting_turn = record {
  stored_settings = some exporting;
  clock = some (pos 100_000);
  has_snapshot = true;
  build_error = none;
  second_clock = none;
  still_has_snapshot = true;
  export_error = some (codes "refused");
  completed_clock = some (pos 100_250);
}

abbrev later_turn : Turn
later_turn = record exporting_turn { clock = some (pos 170_000); export_error = none }

run-Allowed_example :
    Allowed
      (view (initial (from_settings default_otel)))
      (run (exporting_turn ∷ later_turn ∷ []) (initial (from_settings default_otel))).1
run-Allowed_example = run-Allowed (exporting_turn ∷ later_turn ∷ []) (from_settings default_otel)
