-- ===== src/Points/Reads.antt =====
-- Tests that decide statements, and the loop over four candidates with such tests.
use tinytop.Prelude.{
  ◌≡◌, refl, sym, Bool, true, false, ◌&&◌, ◌||◌, ◌⊎◌, inl, inr, List, [], ◌∷◌, All, arith,
}
use mathlib.Core.Path.{subst}
use tinytop.Prelude.Int.{ℤ, pos, eqb_ℤ}
use tinytop.Points.Defs.{HistoryPointMode, raw, rollup, rollup_5m, rollup_1h, Candidate}
use tinytop.Points.Spec.{IsBest}
use tinytop.Points.Choice.{
  IsFirst, first_here, first_later, IsLast, last_here, last_later, IsChoice,
}

-- the test decides the statement
abbrev pub Reads : Bool → Type 0 → Type 0
Reads b P = (b ≡ true → P) × (b ≡ false → ¬ P)

pub both-Reads : {P Q : Type 0} (a b : Bool) → Reads a P → Reads b Q → Reads (a && b) (P × Q)
both-Reads true b p q = ((λ e. (p.0 refl, q.0 e)), (λ e x. q.1 e x.1))
both-Reads false b p q = ((λ e. absurd cc), (λ e x. p.1 refl x.0))

-- four candidates, the finest first, with tests that decide whether each keeps the start and fits
module _ (hold fit : Candidate → Bool) (keeps fits' left : HistoryPointMode → Type 0)
    (c0 c1 c2 c3 : Candidate) (s0 : c0.source ≡ raw) (s1 : c1.source ≡ rollup)
    (s2 : c2.source ≡ rollup_5m) (s3 : c3.source ≡ rollup_1h) (k0 : Reads (hold c0) (keeps raw))
    (k1 : Reads (hold c1) (keeps rollup)) (k2 : Reads (hold c2) (keeps rollup_5m))
    (k3 : Reads (hold c3) (keeps rollup_1h)) (f0 : Reads (fit c0) (fits' raw))
    (f1 : Reads (fit c1) (fits' rollup)) (f2 : Reads (fit c2) (fits' rollup_5m))
    (f3 : Reads (fit c3) (fits' rollup_1h)) where
  abbrev pub four : List Candidate
  four = c0 ∷ c1 ∷ c2 ∷ c3 ∷ []

  abbrev pub IsBestOf : HistoryPointMode → Type 0
  IsBestOf = IsBest keeps fits' left

  b0 : Reads (hold c0 && fit c0) (keeps raw × fits' raw)
  b0 = both-Reads (hold c0) (fit c0) k0 f0

  b1 : Reads (hold c1 && fit c1) (keeps rollup × fits' rollup)
  b1 = both-Reads (hold c1) (fit c1) k1 f1

  b2 : Reads (hold c2 && fit c2) (keeps rollup_5m × fits' rollup_5m)
  b2 = both-Reads (hold c2) (fit c2) k2 f2

  b3 : Reads (hold c3 && fit c3) (keeps rollup_1h × fits' rollup_1h)
  b3 = both-Reads (hold c3) (fit c3) k3 f3

  first-best : (c : Candidate) → IsFirst (λ d. hold d && fit d) c four → IsBestOf c.source
  first-best c (first_here _ h) = let (k, f) = b0.0 h in subst IsBestOf (sym s0) (inl (k, f, tt))
  first-best c (first_later _ _ n0 (first_here _ h)) =
      let (k, f) = b1.0 h in subst IsBestOf (sym s1) (inl (k, f, b0.1 n0))
  first-best c (first_later _ _ n0 (first_later _ _ n1 (first_here _ h))) =
      let (k, f) = b2.0 h in subst IsBestOf (sym s2) (inl (k, f, (b0.1 n0, b1.1 n1)))
  first-best c (first_later _ _ n0 (first_later _ _ n1 (first_later _ _ n2 (first_here _ h)))) =
      let (k, f) = b3.0 h in subst IsBestOf (sym s3) (inl (k, f, (b0.1 n0, b1.1 n1, b2.1 n2)))
  first-best c
        (first_later _ _ n0 (first_later _ _ n1 (first_later _ _ n2 (first_later _ _ _ x)))) =
      elim x [ ]

  last-best :
      (c : Candidate)
      → All (λ d. (hold d && fit d) ≡ false) four
      → IsLast hold c four
      → IsBestOf c.source
  last-best c (n0, (n1, (n2, (n3, _)))) (last_here _ h (m1, (m2, (m3, _)))) =
      subst IsBestOf (sym s0)
        (inr ((b0.1 n0, b1.1 n1, b2.1 n2, b3.1 n3), inl (k0.0 h, (k1.1 m1, k2.1 m2, k3.1 m3))))
  last-best c (n0, (n1, (n2, (n3, _)))) (last_later _ _ (last_here _ h (m2, (m3, _)))) =
      subst IsBestOf (sym s1)
        (inr ((b0.1 n0, b1.1 n1, b2.1 n2, b3.1 n3), inl (k1.0 h, (k2.1 m2, k3.1 m3))))
  last-best c (n0, (n1, (n2, (n3, _)))) (last_later _ _ (last_later _ _ (last_here _ h (m3, _)))) =
      subst IsBestOf (sym s2) (inr ((b0.1 n0, b1.1 n1, b2.1 n2, b3.1 n3), inl (k2.0 h, k3.1 m3)))
  last-best c (n0, (n1, (n2, (n3, _))))
        (last_later _ _ (last_later _ _ (last_later _ _ (last_here _ h _)))) =
      subst IsBestOf (sym s3) (inr ((b0.1 n0, b1.1 n1, b2.1 n2, b3.1 n3), inl (k3.0 h, tt)))
  last-best c (n0, (n1, (n2, (n3, _))))
        (last_later _ _ (last_later _ _ (last_later _ _ (last_later _ _ x)))) =
      elim x [ ]

  pub choice-best :
      (otherwise r : HistoryPointMode)
      → left otherwise
      → IsChoice hold fit otherwise four r
      → IsBestOf r
  choice-best otherwise r l (inl (c, i, e)) = subst IsBestOf (sym e) (first-best c i)
  choice-best otherwise r l (inr (a, inl (c, i, e))) = subst IsBestOf (sym e) (last-best c a i)
  choice-best otherwise r l (inr ((n0, (n1, (n2, (n3, _)))), inr ((m0, (m1, (m2, (m3, _)))), e))) =
      subst IsBestOf (sym e)
        (inr ((b0.1 n0, b1.1 n1, b2.1 n2, b3.1 n3), inr ((k0.1 m0, k1.1 m1, k2.1 m2, k3.1 m3), l)))

pub either-Reads : {P Q : Type 0} (a b : Bool) → Reads a P → Reads b Q → Reads (a || b) (P ⊎ Q)
either-Reads true b p q = ((λ e. inl (p.0 refl)), (λ e x. absurd cc))
either-Reads false b p q =
    ((λ e. inr (q.0 e)), (λ e x. elim x [ inl y ↦ p.1 refl y | inr z ↦ q.1 e z ]))

pub true-Reads : (b : Bool) → Reads b (b ≡ true)
true-Reads b = ((λ e. e), (λ e f. cc))

pub zero-Reads : (a : ℤ) → Reads (eqb_ℤ a (pos 0)) (a ≡ pos 0)
zero-Reads a = ((λ e. ground arith), (λ e f. ground arith))
