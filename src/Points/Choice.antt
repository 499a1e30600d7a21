-- ===== src/Points/Choice.antt =====
-- The first and the last of a list that satisfy a test, and the loop over the candidates.
use tinytop.Prelude.{
  ◌≡◌, refl, Bool, true, false, ◌&&◌, ◌⊎◌, inl, inr, Option, some, List, [], ◌∷◌, All, arith,
  Bool-cases,
}
use tinytop.Points.Defs.{HistoryPointMode, Candidate, choose}

-- `c` is the first of `cs` that satisfies `p`
pub data IsFirst (p : Candidate → Bool) (c : Candidate) : List Candidate → Type 0 where
  first_here : (cs : List Candidate) → p c ≡ true → IsFirst p c (c ∷ cs)
  first_later :
      (d : Candidate) (cs : List Candidate) → p d ≡ false → IsFirst p c cs → IsFirst p c (d ∷ cs)

-- `c` is the last of `cs` that satisfies `p`
pub data IsLast (p : Candidate → Bool) (c : Candidate) : List Candidate → Type 0 where
  last_here : (cs : List Candidate) → p c ≡ true → All (λ d. p d ≡ false) cs → IsLast p c (c ∷ cs)
  last_later : (d : Candidate) (cs : List Candidate) → IsLast p c cs → IsLast p c (d ∷ cs)

-- the choice among the candidates: the finest that keeps the start and fits; else the coarsest that
-- keeps the start; else `otherwise`
abbrev pub IsChoice :
    (Candidate → Bool)
    → (Candidate → Bool)
    → HistoryPointMode
    → List Candidate
    → HistoryPointMode
    → Type 0
IsChoice holds fit otherwise cs r =
    ((c : Candidate) × IsFirst (λ d. holds d && fit d) c cs × (r ≡ c.source))
    ⊎ (All (λ d. (holds d && fit d) ≡ false) cs
        × (((c : Candidate) × IsLast holds c cs × (r ≡ c.source))
            ⊎ (All (λ d. holds d ≡ false) cs × (r ≡ otherwise))))

module _ (holds fit : Candidate → Bool) (last : Option HistoryPointMode → HistoryPointMode)
    (last-some : (m : HistoryPointMode) → last (some m) ≡ m) where
  pub choose-IsChoice :
      (cs : List Candidate) (coarsest : Option HistoryPointMode)
      → IsChoice holds fit (last coarsest) cs (choose holds fit last cs coarsest)
  unfolding choose
  choose-IsChoice [] o = inr (tt, inr (tt, refl))
  choose-IsChoice (c ∷ cs) o = elim (Bool-cases (holds c)) [
    | inl h ↦ elim (Bool-cases (fit c)) [
      | inl f ↦ inl (c, first_here cs (ground arith), ground arith)
      | inr f ↦ elim (choose-IsChoice cs (some c.source)) [
        | inl (d, i, e) ↦ inl (d, first_later c cs (ground arith) i, ground arith)
        | inr (a, inl (d, i, e)) ↦ inr ((ground arith, a), inl (d, last_later c cs i, ground arith))
        | inr (a, inr (n, e)) ↦
            inr ((ground arith, a), inl (c, last_here cs h n, ground (arith, last-some c.source)))
      ]
    ]
    | inr h ↦ elim (choose-IsChoice cs o) [
      | inl (d, i, e) ↦ inl (d, first_later c cs (ground arith) i, ground arith)
      | inr (a, inl (d, i, e)) ↦ inr ((ground arith, a), inl (d, last_later c cs i, ground arith))
      | inr (a, inr (n, e)) ↦ inr ((ground arith, a), inr ((h, n), ground arith))
    ]
  ]
