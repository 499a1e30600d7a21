-- ===== src/Migration/Checks.antt =====
-- What the checks of the migration to v6 let through.
use tinytop.Prelude.{
  ℕ, ◌≤◌, ◌≡◌, ◌∙◌, refl, sym, ap, Bool, true, false, not, ◌&&◌, ◌||◌, ltb, Option, none, some,
  is_some, List, [], ◌∷◌, All, map, keep_if, any_of, length, reduce, max, Bool-cases, inl, inr,
  arith, if◌then◌else◌, ProcessTables, migration, unrecognised, oversized,
}
use mathlib.Core.Path.{subst, ap₂}
use tinytop.Prelude.Text.{Text, text_eq_iff}
use tinytop.Prelude.Int.{ℤ, eqb_ℤ, eqb_ℤ_iff}
use tinytop.Store.Triple.{Triple, pure-Triple, raise-Triple, if-Triple, given-Triple, bind-Triple}
use tinytop.Migration.Schema.{ProcessSample, SchemaDb, table_of, v5_columns}
use tinytop.Migration.Defs.{
  same_columns, check_columns, captures, row_count, oversize_counts, oversize_captures,
  max_top_process_count, refuse_captures_larger_than_the_cpu_list, is_unverified, is_rank,
}
use tinytop.Migration.Steps.{At, Any, query-Triple}

pub same_columns-eq : (ss ts : List Text) → same_columns ss ts ≡ true → ss ≡ ts
unfolding same_columns
same_columns-eq [] [] h = refl
same_columns-eq [] (t ∷ ts) h = cc
same_columns-eq (s ∷ ss) [] h = cc
same_columns-eq (s ∷ ss) (t ∷ ts) h =
    ap₂ ◌∷◌ ((text_eq_iff s t).0 (ground (arith, h))) (same_columns-eq ss ts (ground (arith, h)))

pub check_columns-Triple :
    (t : ProcessTables) (d : SchemaDb)
    → Triple
        (At d)
        (check_columns t)
        (λ _ db. ((table_of t d).columns ≡ v5_columns t) × At d db)
        Any
unfolding check_columns
check_columns-Triple t d =
    bind-Triple _ _ (query-Triple (λ db. (table_of t db).columns) d) λ columns. given-Triple _ λ e.
      if-Triple (same_columns columns (v5_columns t)) _ _
        (λ s. pure-Triple tt (λ db h. (sym e ∙ same_columns-eq columns (v5_columns t) s, h)))
        (λ _. raise-Triple (migration (unrecognised t)) (λ db h. tt))

-- no capture has more rows than the list of processes by CPU
abbrev pub Small : List ProcessSample → Type 0
Small rows = (t : ℤ) → row_count rows t ≤ max_top_process_count

not_seen :
    (t u : ℤ) (ts : List ℤ) (b : Bool)
    → any_of (eqb_ℤ u) ts ≡ b
    → any_of (eqb_ℤ t) (if b then ts else u ∷ ts) ≡ false
    → (eqb_ℤ t u ≡ false) × (any_of (eqb_ℤ t) ts ≡ false)
not_seen t u ts false e h = (ground (arith, h), ground (arith, h))
not_seen t u ts true e h = elim (Bool-cases (eqb_ℤ t u)) [
  | inl same ↦
      let e' : any_of (eqb_ℤ t) ts ≡ true =
        subst (λ v. any_of (eqb_ℤ v) ts ≡ true) (sym ((eqb_ℤ_iff t u).0 same)) e in
      absurd (cc)
  | inr other ↦ (other, h)
]

none_kept :
    (rows : List ProcessSample) (t : ℤ)
    → any_of (eqb_ℤ t) (captures rows) ≡ false
    → row_count rows t ≡ 0
unfolding captures row_count
none_kept [] t h = refl
none_kept (r ∷ rows) t h =
    let (other, absent) = not_seen t r.captured_at_ms (captures rows) _ refl h in
    rw other (none_kept rows t absent)

counts_small :
    (rows : List ProcessSample) (ts : List ℤ) (t : ℤ)
    → keep_if (ltb max_top_process_count) (map (row_count rows) ts) ≡ []
    → any_of (eqb_ℤ t) ts ≡ true
    → row_count rows t ≤ max_top_process_count
counts_small rows [] t h a = cc
counts_small rows (u ∷ ts) t h a =
    elim (Bool-cases (ltb max_top_process_count (row_count rows u))) [
      | inl big ↦ absurd (ground (arith, h, big))
      | inr fits ↦ elim (Bool-cases (eqb_ℤ t u)) [
        | inl same ↦
            subst (λ v. row_count rows v ≤ max_top_process_count) (sym ((eqb_ℤ_iff t u).0 same))
              (ground (arith, fits))
        | inr other ↦ counts_small rows ts t (rw fits at h) (rw other at a)
      ]
    ]

pub no_oversize-Small : (rows : List ProcessSample) → oversize_counts rows ≡ [] → Small rows
unfolding oversize_counts
no_oversize-Small rows h t = elim (Bool-cases (any_of (eqb_ℤ t) (captures rows))) [
  | inl a ↦ counts_small rows (captures rows) t h a
  | inr a ↦ omega (arith, none_kept rows t a)
]

nothing_found :
    (rows : List ProcessSample)
    → (ltb 0 (oversize_captures rows).0 && is_some (oversize_captures rows).1) ≡ false
    → oversize_counts rows ≡ []
unfolding oversize_captures
nothing_found rows h = empty (oversize_counts rows) h
  where
    empty : (ns : List ℕ) → (ltb 0 (length ns) && is_some (reduce max ns)) ≡ false → ns ≡ []
    empty [] h = refl
    empty (n ∷ ns) h = ground (arith, h)

pub refuse-Triple :
    (t : ProcessTables) (d : SchemaDb)
    → Triple
        (At d)
        (refuse_captures_larger_than_the_cpu_list t)
        (λ _ db. Small (table_of t d).rows × At d db)
        Any
unfolding refuse_captures_larger_than_the_cpu_list
refuse-Triple t d =
    bind-Triple _ _ (query-Triple (λ db. oversize_captures (table_of t db).rows) d) λ found.
      given-Triple _ λ e.
        if-Triple (ltb 0 found.0 && is_some found.1) _ _
          (λ _. raise-Triple (migration (oversized t)) (λ db h. tt))
          (λ s. pure-Triple tt (λ db h. (
            no_oversize-Small (table_of t d).rows (nothing_found (table_of t d).rows (rw e at s)),
            h,
          )))

-- the rank is the position by CPU, and what was not measured is unknown
abbrev pub IsRanked : ProcessSample → Type 0
IsRanked r = (r.cpu_rank ≡ some r.rank) × (r.swap_bytes ≡ none) × (r.memory_rank ≡ none)

verified-IsRanked : (r : ProcessSample) → is_unverified r ≡ false → IsRanked r
unfolding is_unverified
verified-IsRanked r h = fields r.rank r.cpu_rank r.swap_bytes r.memory_rank h
  where
    fields :
        (rank : ℤ) (c s m : Option ℤ)
        → (not (is_rank rank c) || is_some s || is_some m) ≡ false
        → (c ≡ some rank) × (s ≡ none) × (m ≡ none)
    fields rank none s m h = cc
    fields rank (some c) none none h =
        (ap some ((eqb_ℤ_iff c rank).0 (ground (arith, h))), refl, refl)
    fields rank (some c) (some s) m h = absurd (ground (arith, h))
    fields rank (some c) none (some m) h = absurd (ground (arith, h))

pub count_unverified-IsRanked :
    (rows : List ProcessSample) → length (keep_if is_unverified rows) ≡ 0 → All IsRanked rows
count_unverified-IsRanked [] h = tt
count_unverified-IsRanked (r ∷ rows) h = elim (Bool-cases (is_unverified r)) [
  | inl b ↦ absurd (ground (arith, h, b))
  | inr b ↦ (verified-IsRanked r b, count_unverified-IsRanked rows (ground (arith, h, b)))
]
