-- ===== src/Agent/Query/Bounds.antt =====
-- What an accepted query of the history points route asks for.
use tinytop.Prelude.{
  ◌≡◌, false, Option, none, some, Bool-cases, inl, inr, Result, ok, err, arith, ◌>>=◌, unwrap_or,
}
use mathlib.Core.Path.{subst, refl}
use tinytop.Prelude.Text.{codes}
use tinytop.Prelude.Int.{ℤ, pos, ◌≤ℤ◌, min_ℤ, max_ℤ}
use tinytop.Points.Defs.{HistoryPointsQuery, HistoryPointMode}
use tinytop.Agent.Query.{
  HistoryPointsParams, below_one, is_inverted, clamp_limit, since_or_window, from_str,
  history_points_query,
}

-- the ends are in order, where both are given
abbrev pub Ordered : Option ℤ → Option ℤ → Type 0
Ordered none until = Unit
Ordered (some since) none = Unit
Ordered (some since) (some until) = since ≤ℤ until

pub record IsBounded (params : HistoryPointsParams) (query : HistoryPointsQuery) : Type 0 where
  pub limit : ℤ
  pub limited : query.limit ≡ some limit
  pub is_limit : limit ≡ min_ℤ (unwrap_or (pos 120) params.limit) (pos 10_000)
  pub at_least_one : pos 1 ≤ℤ limit
  pub at_most : limit ≤ℤ pos 10_000
  pub start : ℤ
  pub started : query.since_ms ≡ some start
  pub is_start : (t : ℤ) → params.since_ms ≡ some t → start ≡ t
  pub is_end : query.until_ms ≡ params.until_ms
  pub ordered : Ordered params.since_ms params.until_ms

not_inverted : (since until : Option ℤ) → is_inverted since until ≡ false → Ordered since until
not_inverted none until h = tt
not_inverted (some since) none h = tt
not_inverted (some since) (some until) h = ground arith

clamp-min :
    (limit : Option ℤ)
    → below_one limit ≡ false
    → clamp_limit limit ≡ min_ℤ (unwrap_or (pos 120) limit) (pos 10_000)
unfolding clamp_limit min_ℤ max_ℤ
clamp-min none h = refl
clamp-min (some limit) h = ground arith

start_of :
    (since window : Option ℤ) (now : ℤ)
    → (s : ℤ) × (since_or_window since window now ≡ some s) × ((t : ℤ) → since ≡ some t → s ≡ t)
unfolding since_or_window
start_of none window now = (_, refl, λ t e. cc)
start_of (some u) window now = (u, refl, λ t e. cc)

clamp_bounds : (limit : Option ℤ) → (pos 1 ≤ℤ clamp_limit limit) × (clamp_limit limit ≤ℤ pos 10_000)
unfolding clamp_limit min_ℤ max_ℤ
clamp_bounds none = ground arith
clamp_bounds (some limit) = ground arith

ok-injective : {A : Type 0} {a b : A} → ok a ≡ ok b → a ≡ b
ok-injective e = cc

accepted :
    (params : HistoryPointsParams) (now : ℤ) (source : Result HistoryPointMode)
    (query : HistoryPointsQuery)
    → below_one params.limit ≡ false
    → is_inverted params.since_ms params.until_ms ≡ false
    → (source >>= λ source. ok record {
      since_ms = since_or_window params.since_ms params.window_seconds now;
      until_ms = params.until_ms;
      limit = some (clamp_limit params.limit);
      source = source;
    })
      ≡ ok query
    → IsBounded params query
accepted params now (err e) query b i h = cc
accepted params now (ok source) query b i h =
    let (s, e, k) = start_of params.since_ms params.window_seconds now in
    let (lo, hi) = clamp_bounds params.limit in
    subst (IsBounded params) (ok-injective h) record {
      limit = clamp_limit params.limit;
      limited = refl;
      is_limit = clamp-min params.limit b;
      at_least_one = lo;
      at_most = hi;
      start = s;
      started = e;
      is_start = k;
      is_end = refl;
      ordered = not_inverted params.since_ms params.until_ms i;
    }

-- An accepted query has the limit that was asked for, 120 if none was, and 10,000 at most; this is one
-- at least. It has a start, which is the one that was given, if one was, and the end that was given,
-- if one was; where both were given, the start is not after the end.
pub history_points_query-IsBounded :
    (params : HistoryPointsParams) (now : ℤ) (query : HistoryPointsQuery)
    → history_points_query params now ≡ ok query
    → IsBounded params query
unfolding history_points_query
history_points_query-IsBounded params now query h = elim (Bool-cases (below_one params.limit)) [
  | inl b ↦ absurd (ground (arith, h, b))
  | inr b ↦ elim (Bool-cases (is_inverted params.since_ms params.until_ms)) [
    | inl i ↦ absurd (ground (arith, h, b, i))
    | inr i ↦
        accepted params now (from_str (unwrap_or (codes "auto") params.source)) query b i
          (rw (b, i) at h)
  ]
]
