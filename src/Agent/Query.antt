-- ===== src/Agent/Query.antt =====
-- The query strings of the history routes: `parse_query_pairs`, `decode_query_component`,
-- `query_value`, the `parse_history_…_params` and the queries that are made of them, of writer.rs.
pub mod Written
pub mod RoundTrip
pub mod Bounds
use tinytop.Prelude.{
  ℕ, ◌+◌, ◌*◌, Bool, true, false, not, ◌&&◌, ◌||◌, Option, none, some, List, [], ◌∷◌, map, keep_if,
  ltb, leb, ◌==◌, if◌then◌else◌, unwrap_or, Result, ok, err, validation, ◌>>=◌, StoreError, Reason,
  bad_parameter, not_one_of,
}
use tinytop.Prelude.Text.{codes, text_eq, contains, split}
use tinytop.Prelude.Int.{ℤ, pos, leb_ℤ, ltb_ℤ, min_ℤ, max_ℤ, saturating_sub, saturating_mul}
use tinytop.Points.Defs.{
  HistoryPointMode, auto, raw, rollup, rollup_5m, rollup_1h, archive, HistoryPointsQuery,
}
use tinytop.Agent.Bytes.{Bytes, hex_value, is_utf8, split_once, parse_i64}

abbrev pub percent : ℕ
percent = b'%'

-- `invalid_query`, which names the parameter
abbrev pub invalid_query {ℓ} : {A : Type ℓ} → Bytes → Result A
invalid_query field = err (validation (bad_parameter field))

-- a byte that is not part of an escape
unfoldable pub plain_byte : ℕ → ℕ
plain_byte c = if c == b'+' then b' ' else c

unfoldable pub escaped : Option ℕ → Option ℕ → Option Bytes → Option Bytes
escaped none l rest = none
escaped (some h) none rest = none
escaped (some h) (some l) none = none
escaped (some h) (some l) (some rest) = some ((h * 16 + l) ∷ rest)

unfoldable pub prepend : ℕ → Option Bytes → Option Bytes
prepend c none = none
prepend c (some s) = some (c ∷ s)

-- the loop of `decode_query_component`; `none` is a bad escape
unfoldable pub decode_bytes : Bytes → Option Bytes
unfolding hex_value plain_byte escaped prepend
decode_bytes [] = some []
decode_bytes (c ∷ []) = if c == percent then none else some (plain_byte c ∷ [])
decode_bytes (c ∷ d ∷ []) =
    let rest = decode_bytes (d ∷ []) in if c == percent then none else prepend (plain_byte c) rest
decode_bytes (c ∷ h ∷ l ∷ s) =
    let after = decode_bytes s in
    let rest = decode_bytes (h ∷ l ∷ s) in
    if c == percent then escaped (hex_value h) (hex_value l) after else prepend (plain_byte c) rest

-- `String::from_utf8`
unfoldable pub from_utf8 : Bytes → Option Bytes → Result Bytes
unfolding is_utf8
from_utf8 field none = invalid_query field
from_utf8 field (some s) = if is_utf8 s then ok s else invalid_query field

unfoldable pub decode_query_component : Bytes → Bytes → Result Bytes
unfolding decode_bytes from_utf8
decode_query_component field observed = from_utf8 field (decode_bytes observed)

abbrev pub Pair : Type 0
Pair = Bytes × Bytes

-- `pair.split_once('=').unwrap_or((pair, ""))`
unfoldable pub split_pair : Bytes → Pair
unfolding split_once
split_pair pair = unwrap_or (pair, []) (split_once b'=' pair)

unfoldable pub decode_pair : Pair → Result Pair
unfolding decode_query_component
decode_pair (raw_name, raw_value) = decode_query_component (codes "name") raw_name >>= λ name.
    decode_query_component name raw_value >>= λ value. ok (name, value)

-- `.map(…).collect()`: the first error ends it
unfoldable pub decode_pairs : List Bytes → Result (List Pair)
unfolding decode_pair split_pair
decode_pairs [] = ok []
decode_pairs (p ∷ ps) =
    decode_pair (split_pair p) >>= λ pair. decode_pairs ps >>= λ pairs. ok (pair ∷ pairs)

abbrev is_empty : Bytes → Bool
is_empty [] = true
is_empty (c ∷ s) = false

unfoldable pub parse_query_pairs : Option Bytes → Result (List Pair)
unfolding decode_pairs split
parse_query_pairs raw_query =
    decode_pairs (keep_if (λ p. not (is_empty p)) (split (λ c. c == b'&') (unwrap_or [] raw_query)))

-- the value of the only pair under one of the names
unfoldable pub only_value : Bytes → List Pair → Result (Option Bytes)
only_value field [] = ok none
only_value field ((name, value) ∷ []) = ok (some value)
only_value field (pair ∷ other ∷ rest) = invalid_query field

unfoldable pub query_value : List Pair → Bytes → List Bytes → Result (Option Bytes)
unfolding only_value contains
query_value pairs field aliases = only_value field (keep_if (λ p. contains aliases p.0) pairs)

unfoldable pub to_i64 : Bytes → Option Bytes → Result (Option ℤ)
unfolding parse_i64
to_i64 field none = ok none
to_i64 field (some value) = elim (parse_i64 value) [
  | none ↦ invalid_query field
  | some n ↦ ok (some n)
]

unfoldable pub query_i64 : List Pair → Bytes → List Bytes → Result (Option ℤ)
unfolding query_value to_i64
query_i64 pairs field aliases = query_value pairs field aliases >>= to_i64 field

unfoldable pub query_string : List Pair → Bytes → List Bytes → Result (Option Bytes)
unfolding query_value
query_string pairs field aliases = query_value pairs field aliases

pub record HistoryPointsParams : Type 0 where
  pub limit : Option ℤ
  pub window_seconds : Option ℤ
  pub since_ms : Option ℤ
  pub until_ms : Option ℤ
  pub source : Option Bytes

abbrev pub limit_names : List Bytes
limit_names = codes "limit" ∷ []

abbrev pub window_names : List Bytes
window_names = codes "windowSeconds" ∷ codes "window_seconds" ∷ []

abbrev pub since_names : List Bytes
since_names = codes "sinceMs" ∷ codes "since_ms" ∷ []

abbrev pub until_names : List Bytes
until_names = codes "untilMs" ∷ codes "until_ms" ∷ []

unfoldable pub parse_history_points_params : Option Bytes → Result HistoryPointsParams
unfolding parse_query_pairs query_i64 query_string
parse_history_points_params raw_query = parse_query_pairs raw_query >>= λ pairs.
    query_i64 pairs (codes "limit") limit_names >>= λ limit.
    query_i64 pairs (codes "windowSeconds") window_names >>= λ window_seconds.
    query_i64 pairs (codes "sinceMs") since_names >>= λ since_ms.
    query_i64 pairs (codes "untilMs") until_names >>= λ until_ms.
    query_string pairs (codes "source") (codes "source" ∷ []) >>= λ source. ok record {
      limit = limit;
      window_seconds = window_seconds;
      since_ms = since_ms;
      until_ms = until_ms;
      source = source;
    }

-- `HistoryPointMode::from_str` of lib.rs
unfoldable pub from_str : Bytes → Result HistoryPointMode
unfolding text_eq
from_str value =
    if text_eq value (codes "auto")
    then ok auto
    else if text_eq value (codes "raw")
    then ok raw
    else if text_eq value (codes "rollup")
        || text_eq value (codes "1m")
        || text_eq value (codes "rollup1m")
    then ok rollup
    else if text_eq value (codes "5m")
    then ok rollup_5m
    else if text_eq value (codes "1h")
    then ok rollup_1h
    else if text_eq value (codes "archive")
    then ok archive
    else err (validation (not_one_of "source"))

-- the start of the range: the one given, or that of the window before now
unfoldable pub since_or_window : Option ℤ → Option ℤ → ℤ → Option ℤ
since_or_window since_ms window_seconds now = elim since_ms [
  | some t ↦ some t
  | none ↦ some (
      saturating_sub now
        (saturating_mul (max_ℤ (unwrap_or (pos 300) window_seconds) (pos 1)) 1_000))
]

-- `limit.unwrap_or(DEFAULT_HISTORY_LIMIT).clamp(1, 10_000)`
unfoldable pub clamp_limit : Option ℤ → ℤ
clamp_limit limit = min_ℤ (max_ℤ (unwrap_or (pos 120) limit) (pos 1)) (pos 10_000)

abbrev pub below_one : Option ℤ → Bool
below_one none = false
below_one (some limit) = ltb_ℤ limit (pos 1)

abbrev pub is_inverted : Option ℤ → Option ℤ → Bool
is_inverted none until = false
is_inverted (some since) none = false
is_inverted (some since) (some until) = ltb_ℤ until since

unfoldable pub history_points_query : HistoryPointsParams → ℤ → Result HistoryPointsQuery
unfolding since_or_window clamp_limit from_str
history_points_query params now =
    if below_one params.limit
    then invalid_query (codes "limit")
    else if is_inverted params.since_ms params.until_ms
    then invalid_query (codes "sinceMs")
    else from_str (unwrap_or (codes "auto") params.source) >>= λ source. ok record {
      since_ms = since_or_window params.since_ms params.window_seconds now;
      until_ms = params.until_ms;
      limit = some (clamp_limit params.limit);
      source = source;
    }
