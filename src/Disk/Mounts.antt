-- ===== src/Disk/Mounts.antt =====
-- The choice of the mount point of a path.
use tinytop.Prelude.{
  ℕ, ◌≤◌, ◌≡◌, true, leb, none, some, List, [], ◌∷◌, length, keep_if, arith, Bool-cases, inl, inr,
  Option-cases, Listed, Listed-keep_if, keep_if-Listed,
}
use mathlib.Core.Path.{subst}
use tinytop.Prelude.Text.{Text}
use tinytop.Disk.Defs.{starts_with, longest, free_bytes_from_mounts}

-- the longest mount is listed, and no listed mount is longer
longest-Listed : (m : List Text × ℕ) (ms : List (List Text × ℕ)) → longest ms ≡ some m → Listed m ms
unfolding longest
longest-Listed m [] h = absurd (ground arith)
longest-Listed m (x ∷ xs) h = elim (Option-cases (longest xs)) [
  | inl e ↦ ground arith
  | inr (o, e) ↦ ground (arith, longest-Listed o xs e)
]

longest-some :
    (x : List Text × ℕ) (xs : List (List Text × ℕ))
    → (m : List Text × ℕ) × (longest (x ∷ xs) ≡ some m)
unfolding longest
longest-some x xs = elim (Option-cases (longest xs)) [
  | inl e ↦ (x, ground arith)
  | inr (o, e) ↦ elim (Bool-cases (leb (length x.0) (length o.0))) [
    | inl b ↦ (o, ground arith)
    | inr b ↦ (x, ground arith)
  ]
]

longest-IsLongest :
    (m : List Text × ℕ) (ms : List (List Text × ℕ)) (other : List Text × ℕ)
    → longest ms ≡ some m
    → Listed other ms
    → length other.0 ≤ length m.0
unfolding longest
longest-IsLongest m [] other h l = absurd l
longest-IsLongest m (x ∷ xs) other h (inl e) = elim (Option-cases (longest xs)) [
  | inl n ↦ ground arith
  | inr (o, n) ↦ ground arith
]
longest-IsLongest m (x ∷ []) other h (inr l) = absurd l
longest-IsLongest m (x ∷ y ∷ ys) other h (inr l) =
    let (o, e) = longest-some y ys in
    let below = longest-IsLongest o (y ∷ ys) other e l in ground arith

-- a list with a mount has a longest one
longest-none : (m : List Text × ℕ) (ms : List (List Text × ℕ)) → longest ms ≡ none → Listed m ms → ⊥
longest-none m [] h l = l
longest-none m (x ∷ xs) h l = let (o, e) = longest-some x xs in cc

-- An answer is the free space of a listed mount that contains the path, and no listed mount that
-- contains it has more components.
pub free_bytes_from_mounts-IsLongest :
    (path : List Text) (mounts : List (List Text × ℕ)) (bytes : ℕ)
    → free_bytes_from_mounts path mounts ≡ some bytes
    → (mount : List Text) × Listed (mount, bytes) mounts
      × (starts_with path mount ≡ true)
      × ((other : List Text) (space : ℕ)
          → Listed (other, space) mounts
          → starts_with path other ≡ true
          → length other ≤ length mount)
unfolding free_bytes_from_mounts
free_bytes_from_mounts-IsLongest path mounts bytes h =
    let p = λ (m : List Text × ℕ). starts_with path m.0 in
    elim (Option-cases (longest (keep_if p mounts))) [
      | inl e ↦ absurd (ground arith)
      | inr ((mount, space), e) ↦
          let (contains, listed) =
            Listed-keep_if p (mount, space) mounts
              (longest-Listed (mount, space) (keep_if p mounts) e) in
          let same : space ≡ bytes = ground arith in
          let is_listed : Listed (mount, bytes) mounts =
            subst (λ b. Listed (mount, b) mounts) same listed in
          (
            mount,
            is_listed,
            contains,
            λ other s l c.
                longest-IsLongest (mount, space) (keep_if p mounts) (other, s) e
                  (keep_if-Listed p (other, s) mounts c l),
          )
    ]

-- There is an answer whenever some listed mount contains the path.
free_bytes_from_mounts-some :
    (path : List Text) (mounts : List (List Text × ℕ)) (mount : List Text) (space : ℕ)
    → Listed (mount, space) mounts
    → starts_with path mount ≡ true
    → (bytes : ℕ) × (free_bytes_from_mounts path mounts ≡ some bytes)
unfolding free_bytes_from_mounts
free_bytes_from_mounts-some path mounts mount space l c =
    let p = λ (m : List Text × ℕ). starts_with path m.0 in
    elim (Option-cases (longest (keep_if p mounts))) [
      | inl e ↦ absurd (
          longest-none (mount, space) (keep_if p mounts) e
            (keep_if-Listed p (mount, space) mounts c l))
      | inr (m, e) ↦ (m.1, ground arith)
    ]
