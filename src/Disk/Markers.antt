-- ===== src/Disk/Markers.antt =====
-- The markers that disk checks write, over every outcome of a check.
use tinytop.Prelude.{
  ◌≡◌, refl, sym, ap, ◌∙◌, Result, ℕ, Bool, true, false, inl, inr, Option, none, some, List, [],
  ◌∷◌, ok, err, ◌⊎◌, ◌≤◌, Bool-cases, Result-cases, unwrap_or, arith, StoreError,
}
use mathlib.Core.Path.{subst}
use tinytop.Prelude.Int.{ℤ, pos, ltb_ℤ, ◌≤ℤ◌, ◌<ℤ◌, i64_top}
use tinytop.Prelude.Text.{Text}
use tinytop.Retention.Defs.{no_pressure, RetentionLadder, DiskPressureState}
use tinytop.Store.Exec.{
  World, transaction, transaction_atomic, transaction-ok, >>=-eq-ok, >>=-eq-err, pure, query,
}
use tinytop.Store.Rows.{Db, Marker, disk_pressure_marker, disk_recovered_marker}
use tinytop.Disk.Defs.{
  transition_of, since, clamp_bytes, record_transition, apply_body, apply_in_transaction,
  apply_disk_measurement, DiskCheckReport, DiskTransition, unchanged, breached, recovered,
}

-- The markers, newest first, alternate, the oldest is a breach, and the newest is a breach exactly
-- when the pressure is active.
abbrev pub Alternates : Bool → List Marker → Type 0
Alternates active [] = active ≡ false
Alternates active (disk_pressure_marker t ∷ ms) = (active ≡ true) × Alternates false ms
Alternates active (disk_recovered_marker t ∷ ms) = (active ≡ false) × Alternates true ms

abbrev pub active_of : {F : Type 0} → Db F → Bool
active_of db = (unwrap_or no_pressure db.disk_pressure).active

-- the markers agree with the stored state
abbrev pub IsMarked : {F : Type 0} → Db F → Type 0
IsMarked db = Alternates (active_of db) db.app_events

abbrev pub stored : {F : Type 0} → Db F → DiskPressureState
stored db = unwrap_or no_pressure db.disk_pressure

ok-injective : {A : Type 0} {a b : A} → ok a ≡ ok b → a ≡ b
ok-injective e = cc

-- the state that a check stores
abbrev pub state_at : {F : Type 0} → ℤ → ℤ → Db F → Bool → ℤ → DiskPressureState
state_at min_free now before pressure free = record {
  active = pressure;
  since_ms = since pressure (stored before) now;
  free_bytes = free;
  min_free_bytes = min_free;
}

-- there is pressure exactly if there is too little space
abbrev pub IsLow : Bool → ℤ → ℤ → Type 0
IsLow true free min_free = free <ℤ min_free
IsLow false free min_free = min_free ≤ℤ free

pressure_of : (free min_free : ℤ) → IsLow (ltb_ℤ free min_free) free min_free
pressure_of free min_free = elim (Bool-cases (ltb_ℤ free min_free)) [
  | inl h ↦ rw h (ground arith)
  | inr h ↦ rw h (ground arith)
]

free_of :
    (bytes : ℕ)
    → ((bytes ≤ i64_top) × (clamp_bytes bytes ≡ pos bytes))
      ⊎ ((i64_top ≤ bytes) × (clamp_bytes bytes ≡ pos i64_top))
unfolding clamp_bytes
free_of bytes = ground arith

module _ {F : Type 0} where
  apply_body-IsMarked :
      (free min_free now : ℤ) (w : World (Db F)) (t : DiskTransition)
      → IsMarked w.db
      → (apply_body free min_free now w).0 ≡ ok t
      → IsMarked (apply_body free min_free now w).1.db
  unfolding apply_body transition_of record_transition
  apply_body-IsMarked free min_free now w t a h = ground arith

  -- what a check does to the activity, its start and the markers
  abbrev pub Moved : DiskTransition → ℤ → Db F → DiskPressureState → Db F → Type 0
  Moved unchanged now before state after =
      (after.app_events ≡ before.app_events)
      × (((active_of before ≡ true)
            × (state.active ≡ true)
            × (state.since_ms ≡ (stored before).since_ms))
          ⊎ ((active_of before ≡ false) × (state.active ≡ false) × (state.since_ms ≡ none)))
  Moved breached now before state after =
      (after.app_events ≡ disk_pressure_marker now ∷ before.app_events)
      × (active_of before ≡ false)
      × (state.active ≡ true)
      × (state.since_ms ≡ some now)
  Moved recovered now before state after =
      (after.app_events ≡ disk_recovered_marker now ∷ before.app_events)
      × (active_of before ≡ true)
      × (state.active ≡ false)
      × (state.since_ms ≡ none)

  apply_body-ok :
      (free min_free now : ℤ) (w : World (Db F)) (t : DiskTransition)
      → (apply_body free min_free now w).0 ≡ ok t
      → ((apply_body free min_free now w).1.db.disk_pressure
          ≡ some (state_at min_free now w.db (ltb_ℤ free min_free) free))
        × ((apply_body free min_free now w).1.db.last_disk_check_ms ≡ some now)
  unfolding apply_body record_transition transition_of
  apply_body-ok free min_free now w t h = (ground arith, ground arith)

  apply_body-Moved :
      (free min_free now : ℤ) (w : World (Db F)) (t : DiskTransition)
      → (apply_body free min_free now w).0 ≡ ok t
      → Moved t now w.db
          (state_at min_free now w.db (ltb_ℤ free min_free) free)
          (apply_body free min_free now w).1.db
  unfolding apply_body record_transition transition_of since
  apply_body-Moved free min_free now w unchanged h = ground arith
  apply_body-Moved free min_free now w breached h = ground arith
  apply_body-Moved free min_free now w recovered h = ground arith

  -- what a report says of the database that it was made for, and of the one that it leaves
  pub record IsReported (ladder : RetentionLadder) (bytes : ℕ) (now : ℤ) (before after : Db F)
      (r : DiskCheckReport) : Type 0 where
    pub is_free :
        ((bytes ≤ i64_top) × (r.free_bytes ≡ pos bytes))
        ⊎ ((i64_top ≤ bytes) × (r.free_bytes ≡ pos i64_top))
    pub is_low : IsLow r.pressure r.free_bytes ladder.disk_check.min_free_bytes
    pub state : DiskPressureState
    pub is_stored : after.disk_pressure ≡ some state
    pub active_is : state.active ≡ r.pressure
    pub state_free : state.free_bytes ≡ r.free_bytes
    pub state_min : state.min_free_bytes ≡ ladder.disk_check.min_free_bytes
    pub has_moved : Moved r.transition now before state after
    pub checked_is : after.last_disk_check_ms ≡ some now

  -- the report of a transition
  abbrev report_of :
      List Text → ℤ → ℤ → ℤ → DiskTransition → World (Db F) → Result DiskCheckReport × World (Db F)
  report_of path free min_free size t = pure record {
    path = path;
    free_bytes = free;
    min_free_bytes = min_free;
    database_bytes = size;
    pressure = ltb_ℤ free min_free;
    transition = t;
  }

  query-db : {A : Type 0} (f : Db F → A) (w : World (Db F)) → (query f w).1.db ≡ w.db
  query-db f w = ground arith

  in_transaction-err :
      (path : List Text) (free min_free now size : ℤ) (w : World (Db F)) (e : StoreError)
      → (apply_in_transaction path free min_free now size w).0 ≡ err e
      → (apply_in_transaction path free min_free now size w).1.db ≡ w.db
  unfolding apply_in_transaction
  in_transaction-err path free min_free now size w e h =
      let body = apply_body free min_free now in
      elim (>>=-eq-err (transaction body) (report_of path free min_free size) w e h) [
        | inl (c, d) ↦ ap (λ v. v.db) d ∙ transaction_atomic body w e c
        | inr (t, c, d, x) ↦ absurd (ground arith)
      ]

  module _ (size : Db F → ℤ) (path : List Text) (ladder : RetentionLadder) (now : ℤ) where
    -- A check that fails, in its measurement or in any statement, leaves the database as it was.
    pub apply_disk_measurement-err :
        (m : Option ℕ) (w : World (Db F)) (e : StoreError)
        → (apply_disk_measurement size path m ladder now w).0 ≡ err e
        → (apply_disk_measurement size path m ladder now w).1.db ≡ w.db
    unfolding apply_disk_measurement
    apply_disk_measurement-err none w e h = refl
    apply_disk_measurement-err (some bytes) w e h =
        let free = clamp_bytes bytes in
        let min_free = ladder.disk_check.min_free_bytes in
        elim (>>=-eq-err (query size) (apply_in_transaction path free min_free now) w e h) [
          | inl (c, d) ↦ ap (λ v. v.db) d ∙ query-db size w
          | inr (n, c, d, x) ↦
              ap (λ v. v.db) x
              ∙ in_transaction-err path free min_free now n (query size w).1 e d
              ∙ query-db size w
        ]

    -- what a successful check did: its transaction ran on the database
    split-ok :
        (bytes : ℕ) (w : World (Db F)) (r : DiskCheckReport)
        → (apply_disk_measurement size path (some bytes) ladder now w).0 ≡ ok r
        → (w' : World (Db F)) × (w'.db ≡ w.db)
          × ((apply_body (clamp_bytes bytes) ladder.disk_check.min_free_bytes now w').0
              ≡ ok r.transition)
          × ((apply_disk_measurement size path (some bytes) ladder now w).1.db
              ≡ (apply_body (clamp_bytes bytes) ladder.disk_check.min_free_bytes now w').1.db)
          × (r.free_bytes ≡ clamp_bytes bytes)
          × (r.pressure ≡ ltb_ℤ (clamp_bytes bytes) ladder.disk_check.min_free_bytes)
    unfolding apply_disk_measurement apply_in_transaction
    split-ok bytes w r h =
        let free = clamp_bytes bytes in
        let min_free = ladder.disk_check.min_free_bytes in
        let body = apply_body free min_free now in
        let (n, q, h', d) =
          >>=-eq-ok (query size) (apply_in_transaction path free min_free now) w r h in
        let w1 = (query size w).1 in
        let (t, c, is_r, d') =
          >>=-eq-ok (transaction body) (report_of path free min_free n) w1 r h' in
        let (w', same, b, d'') = transaction-ok body w1 t c in
        let r_is = ok-injective is_r in
        (
          w',
          same ∙ query-db size w,
          b ∙ ap (λ x. ok x.transition) r_is,
          ap (λ v. v.db) (d ∙ d') ∙ d'',
          ap (λ x. x.free_bytes) (sym r_is),
          ap (λ x. x.pressure) (sym r_is),
        )

    -- A successful check reports the bytes, or the greatest `i64` if they are more, and pressure exactly
    -- if that is below the minimum; it stores these, and the time of the check. The transition is
    -- a breach where the database had no pressure and there is some now, and a recovery where it had
    -- and there is none; then the marker of that is added, and pressure is since now or since no
    -- time. Otherwise it is unchanged: no marker is added, and pressure that lasts keeps its start.
    pub apply_disk_measurement-ok :
        (bytes : ℕ) (w : World (Db F)) (r : DiskCheckReport)
        → (apply_disk_measurement size path (some bytes) ladder now w).0 ≡ ok r
        → IsReported ladder bytes now w.db
            (apply_disk_measurement size path (some bytes) ladder now w).1.db
            r
    apply_disk_measurement-ok bytes w r h =
        let free = clamp_bytes bytes in
        let min_free = ladder.disk_check.min_free_bytes in
        let (w', same, b, d, f, p) = split-ok bytes w r h in
        let (s, l) = apply_body-ok free min_free now w' r.transition b in
        let state = state_at min_free now w'.db (ltb_ℤ free min_free) free in
        record {
          is_free =
              subst
                (λ x.
                  ((bytes ≤ i64_top) × (x ≡ pos bytes)) ⊎ ((i64_top ≤ bytes) × (x ≡ pos i64_top)))
                (sym f) (free_of bytes);
          is_low =
              subst (λ x. IsLow r.pressure x min_free) (sym f)
                (subst (λ x. IsLow x free min_free) (sym p) (pressure_of free min_free));
          state = state;
          is_stored = ap (λ x. x.disk_pressure) d ∙ s;
          active_is = sym p;
          state_free = sym f;
          state_min = refl;
          has_moved =
              subst (λ x. Moved r.transition now w.db state x) (sym d)
                (subst (λ x. Moved r.transition now x state (apply_body free min_free now w').1.db)
                  same (apply_body-Moved free min_free now w' r.transition b));
          checked_is = ap (λ x. x.last_disk_check_ms) d ∙ l;
        }

    marked :
        (m : Option ℕ) (w : World (Db F)) (r : DiskCheckReport)
        → IsMarked w.db
        → (apply_disk_measurement size path m ladder now w).0 ≡ ok r
        → IsMarked (apply_disk_measurement size path m ladder now w).1.db
    unfolding apply_disk_measurement
    marked none w r h e = h
    marked (some bytes) w r h e =
        let (w', same, b, d, f, p) = split-ok bytes w r e in
        subst (λ x. IsMarked x) (sym d)
          (apply_body-IsMarked (clamp_bytes bytes) ladder.disk_check.min_free_bytes now w'
            r.transition (subst (λ x. IsMarked x) (sym same) h) b)

    -- Over every outcome of a check, failures included, the stored markers alternate between a
    -- breach and a recovery, and the newest is a breach exactly when the stored pressure is active, if
    -- this held before the check.
    pub apply_disk_measurement-IsMarked :
        (m : Option ℕ) (w : World (Db F))
        → IsMarked w.db
        → IsMarked (apply_disk_measurement size path m ladder now w).1.db
    apply_disk_measurement-IsMarked m w h =
        elim (Result-cases (apply_disk_measurement size path m ladder now w).0) [
          | inl (r, e) ↦ marked m w r h e
          | inr (x, e) ↦ subst (λ d. IsMarked d) (sym (apply_disk_measurement-err m w x e)) h
        ]
