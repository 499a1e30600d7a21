-- ===== src/Agent/Query/RoundTrip.antt =====
-- A query string is read back, in whatever form its pairs are written.
use tinytop.Prelude.{
  ℕ, ◌≡◌, ◌≢◌, inl, inr, refl, ap, Bool, true, false, not, Bool-cases, some, List, [], ◌∷◌, ◌++◌,
  All, keep_if, ◌==◌, ok, arith,
}
use tinytop.Prelude.Text.{codes, split}
use tinytop.Agent.Bytes.{Bytes, is_utf8, split_once}
use tinytop.Agent.Query.{Pair, split_pair, decode_pair, decode_pairs, parse_query_pairs, is_empty}
use tinytop.Agent.Query.Written.{Writes, decode_query_component-ok}

-- no byte of the text is this one
abbrev pub Lacks : ℕ → Bytes → Type 0
Lacks b s = All (λ c. c ≢ b) s

abbrev pub join_pair : Bytes → Bytes → Bytes
join_pair n v = n ++ b'=' ∷ v

-- a written form of a pair, in which the two separators are escaped
pub record WritesPair (pair : Pair) (text : Bytes) : Type 0 where
  pub name : Bytes
  pub value : Bytes
  pub is_joined : text ≡ join_pair name value
  pub writes_name : Writes pair.0 name
  pub writes_value : Writes pair.1 value
  pub valid_name : is_utf8 pair.0 ≡ true
  pub valid_value : is_utf8 pair.1 ≡ true
  pub no_equals : Lacks b'=' name
  pub no_ampersand : Lacks b'&' name × Lacks b'&' value

abbrev pub WritesPairs : List Pair → List Bytes → Type 0
WritesPairs [] [] = Unit
WritesPairs [] (t ∷ ts) = ⊥
WritesPairs (p ∷ ps) [] = ⊥
WritesPairs (p ∷ ps) (t ∷ ts) = WritesPair p t × WritesPairs ps ts

-- the query string
abbrev pub join_query : List Bytes → Bytes
join_query [] = []
join_query (t ∷ []) = t
join_query (t ∷ u ∷ ts) = t ++ b'&' ∷ join_query (u ∷ ts)

split_once-join : (n v : Bytes) → Lacks b'=' n → split_once b'=' (join_pair n v) ≡ some (n, v)
unfolding split_once
split_once-join [] v h = refl
split_once-join (c ∷ n) v (h, hs) = ground (arith, h, split_once-join n v hs)

decode_pair-Writes :
    (pair : Pair) (text : Bytes) → WritesPair pair text → decode_pair (split_pair text) ≡ ok pair
unfolding decode_pair split_pair
decode_pair-Writes (n, v) text w =
    rw (w.is_joined, split_once-join w.name w.value w.no_equals)
      (rw
        (
          (decode_query_component-ok (codes "name") n w.name).1 (w.writes_name, w.valid_name),
          (decode_query_component-ok n v w.value).1 (w.writes_value, w.valid_value),
        )
        refl)

decode_pairs-Writes :
    (pairs : List Pair) (texts : List Bytes)
    → WritesPairs pairs texts
    → decode_pairs texts ≡ ok pairs
unfolding decode_pairs
decode_pairs-Writes [] [] w = refl
decode_pairs-Writes [] (t ∷ ts) w = absurd w
decode_pairs-Writes (p ∷ ps) [] w = absurd w
decode_pairs-Writes (p ∷ ps) (t ∷ ts) (w, ws) =
    rw (decode_pair-Writes p t w, decode_pairs-Writes ps ts ws) refl

abbrev is_amp : ℕ → Bool
is_amp c = c == b'&'

split_some : (s : Bytes) → (p : Bytes) × (ps : List Bytes) × (split is_amp s ≡ p ∷ ps)
unfolding split
split_some [] = ([], [], refl)
split_some (c ∷ s) =
    let (p, ps, e) = split_some s in
    elim (Bool-cases (is_amp c)) [
      | inl a ↦ ([], p ∷ ps, rw (e, a) refl)
      | inr a ↦ (c ∷ p, ps, rw (e, a) refl)
    ]

split-Lacks : (t : Bytes) → Lacks b'&' t → split is_amp t ≡ t ∷ []
unfolding split
split-Lacks [] h = refl
split-Lacks (c ∷ t) (h, hs) = rw (split-Lacks t hs) (ground (arith, h))

split-append : (t s : Bytes) → Lacks b'&' t → split is_amp (t ++ b'&' ∷ s) ≡ t ∷ split is_amp s
unfolding split
split-append [] s h = let (p, ps, e) = split_some s in rw e refl
split-append (c ∷ t) s (h, hs) = rw (split-append t s hs) (ground (arith, h))

text-Lacks : (n v : Bytes) → Lacks b'&' n → Lacks b'&' v → Lacks b'&' (join_pair n v)
text-Lacks [] v h k = (omega arith, k)
text-Lacks (c ∷ n) v (h, hs) k = (h, text-Lacks n v hs k)

text_some : (n v : Bytes) → is_empty (join_pair n v) ≡ false
text_some [] v = refl
text_some (c ∷ n) v = refl

pair-Lacks : (pair : Pair) (text : Bytes) → WritesPair pair text → Lacks b'&' text
pair-Lacks pair text w =
    rw w.is_joined (text-Lacks w.name w.value w.no_ampersand.0 w.no_ampersand.1)

pair_some : (pair : Pair) (text : Bytes) → WritesPair pair text → is_empty text ≡ false
pair_some pair text w = rw w.is_joined (text_some w.name w.value)

split-join_query :
    (pairs : List Pair) (texts : List Bytes)
    → WritesPairs pairs texts
    → keep_if (λ t. not (is_empty t)) (split is_amp (join_query texts)) ≡ texts
split-join_query [] [] w = unfold split in refl
split-join_query [] (t ∷ ts) w = absurd w
split-join_query (p ∷ ps) [] w = absurd w
split-join_query (p ∷ []) (t ∷ []) (w, ws) =
    rw (split-Lacks t (pair-Lacks p t w), pair_some p t w) refl
split-join_query (p ∷ q ∷ ps) (t ∷ []) (w, ws) = absurd ws
split-join_query (p ∷ []) (t ∷ u ∷ ts) (w, ws) = absurd ws
split-join_query (p ∷ q ∷ ps) (t ∷ u ∷ ts) (w, ws) =
    rw (split-append t (join_query (u ∷ ts)) (pair-Lacks p t w), pair_some p t w)
      (ap (λ r. t ∷ r) (split-join_query (q ∷ ps) (u ∷ ts) ws))

-- A query string is read as the pairs that it was written from, when the names and values are UTF-8,
-- each in any of its written forms without an ampersand, and the names without an equals sign.
pub parse_query_pairs-join_query :
    (pairs : List Pair) (texts : List Bytes)
    → WritesPairs pairs texts
    → parse_query_pairs (some (join_query texts)) ≡ ok pairs
unfolding parse_query_pairs
parse_query_pairs-join_query pairs texts w =
    rw (split-join_query pairs texts w) (decode_pairs-Writes pairs texts w)
