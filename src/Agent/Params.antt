-- ===== src/Agent/Params.antt =====
-- The query strings of the other history routes, and their queries, of writer.rs.
use tinytop.Prelude.{
  Bool, true, false, ◌||◌, Option, none, some, [], ◌∷◌, if◌then◌else◌, Result, ok, ◌>>=◌,
}
use tinytop.Prelude.Text.{codes}
use tinytop.Prelude.Int.{ℤ, pos, ltb_ℤ}
use tinytop.Agent.Bytes.{Bytes}
use tinytop.Agent.Query.{
  invalid_query, parse_query_pairs, query_i64, query_string, limit_names, since_names, until_names,
  since_or_window, clamp_limit, below_one, is_inverted,
}

-- of the route of samples; the markers' parameters are made into these
pub record HistoryParams : Type 0 where
  pub limit : Option ℤ
  pub window_seconds : Option ℤ
  pub since_ms : Option ℤ
  pub until_ms : Option ℤ

pub record HistoryQuery : Type 0 where
  pub since_ms : Option ℤ
  pub until_ms : Option ℤ
  pub limit : Option ℤ

abbrev pub default_params : HistoryParams
default_params = record {
  limit = some (pos 120);
  window_seconds = some (pos 300);
  since_ms = none;
  until_ms = none;
}

unfoldable pub should_backfill_empty_history : HistoryParams → Bool
should_backfill_empty_history params = elim params.since_ms [
  | some t ↦ false
  | none ↦ elim params.until_ms [ some t ↦ false | none ↦ true ]
]

unfoldable pub history_query : HistoryParams → ℤ → HistoryQuery
unfolding since_or_window clamp_limit
history_query params now = record {
  since_ms = since_or_window params.since_ms params.window_seconds now;
  until_ms = params.until_ms;
  limit = some (clamp_limit params.limit);
}

unfoldable pub detail_history_query : Option ℤ → Option ℤ → Option ℤ → HistoryQuery
unfolding clamp_limit
detail_history_query since_ms until_ms limit = record {
  since_ms = since_ms;
  until_ms = until_ms;
  limit = some (clamp_limit limit);
}

pub record HistoryFilesystemsParams : Type 0 where
  pub since_ms : Option ℤ
  pub until_ms : Option ℤ
  pub mount : Option Bytes
  pub limit : Option ℤ

unfoldable pub parse_history_filesystems_params : Option Bytes → Result HistoryFilesystemsParams
unfolding parse_query_pairs query_i64 query_string
parse_history_filesystems_params raw_query = parse_query_pairs raw_query >>= λ pairs.
    query_i64 pairs (codes "sinceMs") since_names >>= λ since_ms.
    query_i64 pairs (codes "untilMs") until_names >>= λ until_ms.
    query_string pairs (codes "mount") (codes "mount" ∷ []) >>= λ mount.
    query_i64 pairs (codes "limit") limit_names >>= λ limit.
    ok record { since_ms = since_ms; until_ms = until_ms; mount = mount; limit = limit }

pub record HistoryGpusParams : Type 0 where
  pub since_ms : Option ℤ
  pub until_ms : Option ℤ
  pub adapter : Option Bytes
  pub limit : Option ℤ

abbrev above_most : Option ℤ → Bool
above_most none = false
above_most (some limit) = ltb_ℤ (pos 10_000) limit

unfoldable pub check_gpus_params : HistoryGpusParams → Result HistoryGpusParams
check_gpus_params params =
    if below_one params.limit || above_most params.limit
    then invalid_query (codes "limit")
    else if is_inverted params.since_ms params.until_ms
    then invalid_query (codes "sinceMs")
    else ok params

unfoldable pub parse_history_gpus_params : Option Bytes → Result HistoryGpusParams
unfolding parse_query_pairs query_i64 query_string check_gpus_params
parse_history_gpus_params raw_query = parse_query_pairs raw_query >>= λ pairs.
    query_i64 pairs (codes "sinceMs") since_names >>= λ since_ms.
    query_i64 pairs (codes "untilMs") until_names >>= λ until_ms.
    query_string pairs (codes "adapter") (codes "adapter" ∷ []) >>= λ adapter.
    query_i64 pairs (codes "limit") limit_names >>= λ limit.
    check_gpus_params
      record { since_ms = since_ms; until_ms = until_ms; adapter = adapter; limit = limit }

pub record HistoryProcessesParams : Type 0 where
  pub since_ms : Option ℤ
  pub until_ms : Option ℤ
  pub limit : Option ℤ

unfoldable pub parse_history_processes_params : Option Bytes → Result HistoryProcessesParams
unfolding parse_query_pairs query_i64
parse_history_processes_params raw_query = parse_query_pairs raw_query >>= λ pairs.
    query_i64 pairs (codes "sinceMs") since_names >>= λ since_ms.
    query_i64 pairs (codes "untilMs") until_names >>= λ until_ms.
    query_i64 pairs (codes "limit") limit_names >>= λ limit.
    ok record { since_ms = since_ms; until_ms = until_ms; limit = limit }
