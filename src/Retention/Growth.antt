-- ===== src/Retention/Growth.antt =====
-- What `grows_from` means: an order on what two ladders keep. Under disk pressure every accepted
-- write goes down in it.
use tinytop.Prelude.{◌≡◌, ◌↔◌, Bool, true, false, if◌then◌else◌, some, ok, arith}
use tinytop.Prelude.Int.{ℤ, pos, ◌≤ℤ◌, eqb_ℤ}
use tinytop.Retention.Defs.{
  ToggledTierKeep, DiskPressureState, RetentionLadder, enabled_horizon_grew, grows_from, validate,
}
use tinytop.Retention.Validity.{validate-ok_pressure}

-- how far back a tier reaches
pub data Horizon : Type 0 where
  off : Horizon
  days : ℤ → Horizon
  forever : Horizon

infix 50 ◌≤h◌
abbrev pub ◌≤h◌ : Horizon → Horizon → Type 0
off ≤h b = Unit
days m ≤h off = ⊥
days m ≤h days n = m ≤ℤ n
days m ≤h forever = Unit
forever ≤h off = ⊥
forever ≤h days n = ⊥
forever ≤h forever = Unit

abbrev pub horizon3 : ToggledTierKeep → Horizon
horizon3 t = if t.enabled then days t.keep_days else off

abbrev pub horizon4 : ToggledTierKeep → Horizon
horizon4 t =
    if t.enabled then (if eqb_ℤ t.keep_days (pos 0) then forever else days t.keep_days) else off

abbrev pub Implies : Bool → Bool → Type 0
Implies a b = a ≡ true → b ≡ true

-- `l` keeps no more than `m`, tier by tier
pub record Within (l m : RetentionLadder) : Type 0 where
  pub l1 : l.l1.keep_days ≤ℤ m.l1.keep_days
  pub l2 : l.l2.keep_days ≤ℤ m.l2.keep_days
  pub l3 : horizon3 l.l3 ≤h horizon3 m.l3
  pub l4 : horizon4 l.l4 ≤h horizon4 m.l4
  pub process_fast : l.process_fast_keep_hours ≤ℤ m.process_fast_keep_hours
  pub queryable : Implies l.archive.queryable m.archive.queryable
  pub cold : Implies l.archive.cold m.archive.cold

≤h-refl : (a : Horizon) → a ≤h a
≤h-refl off = tt
≤h-refl (days n) = omega arith
≤h-refl forever = tt

≤h-trans : (a b c : Horizon) → a ≤h b → b ≤h c → a ≤h c
≤h-trans off b c h k = tt
≤h-trans (days m) off c h k = absurd h
≤h-trans (days m) (days n) off h k = absurd k
≤h-trans (days m) (days n) (days o) h k = omega arith
≤h-trans (days m) (days n) forever h k = tt
≤h-trans (days m) forever off h k = absurd k
≤h-trans (days m) forever (days o) h k = absurd k
≤h-trans (days m) forever forever h k = tt
≤h-trans forever off c h k = absurd h
≤h-trans forever (days n) c h k = absurd h
≤h-trans forever forever c h k = k

pub Within-refl : (l : RetentionLadder) → Within l l
Within-refl l = record {
  l1 = omega arith;
  l2 = omega arith;
  l3 = ≤h-refl (horizon3 l.l3);
  l4 = ≤h-refl (horizon4 l.l4);
  process_fast = omega arith;
  queryable = λ h. h;
  cold = λ h. h;
}

pub Within-trans : {l m n : RetentionLadder} → Within l m → Within m n → Within l n
Within-trans {l} {m} {n} a b = record {
  l1 = omega arith;
  l2 = omega arith;
  l3 = ≤h-trans (horizon3 l.l3) (horizon3 m.l3) (horizon3 n.l3) a.l3 b.l3;
  l4 = ≤h-trans (horizon4 l.l4) (horizon4 m.l4) (horizon4 n.l4) a.l4 b.l4;
  process_fast = omega arith;
  queryable = λ h. b.queryable (a.queryable h);
  cold = λ h. b.cold (a.cold h);
}

horizon3_grew :
    (t u : ToggledTierKeep)
    → (enabled_horizon_grew t.enabled t.keep_days u.enabled u.keep_days false ≡ false)
      ↔ (horizon3 t ≤h horizon3 u)
unfolding enabled_horizon_grew
horizon3_grew t u = ground arith

horizon4_grew :
    (t u : ToggledTierKeep)
    → (enabled_horizon_grew t.enabled t.keep_days u.enabled u.keep_days true ≡ false)
      ↔ (horizon4 t ≤h horizon4 u)
unfolding enabled_horizon_grew
horizon4_grew t u = ground arith

-- `grows_from` is false exactly when no tier reaches further back, the fast process rows are kept
-- no longer, and no archive is turned on.
pub grows_from-Within : (l m : RetentionLadder) → (grows_from l m ≡ false) ↔ Within l m
unfolding grows_from
grows_from-Within l m = (
  (λ h. record {
    l1 = ground arith;
    l2 = ground arith;
    l3 = (horizon3_grew l.l3 m.l3).0 (ground arith);
    l4 = (horizon4_grew l.l4 m.l4).0 (ground arith);
    process_fast = ground arith;
    queryable = λ a. ground arith;
    cold = λ a. ground arith;
  }),
  (λ h. ground (
    arith,
    h.l1,
    h.l2,
    (horizon3_grew l.l3 m.l3).1 h.l3,
    (horizon4_grew l.l4 m.l4).1 h.l4,
    h.process_fast,
    h.queryable,
    h.cold,
  )),
)

-- ladders accepted one after the other, each against the one before, at one disk state
pub data Accepted (p : DiskPressureState) (l : RetentionLadder) : RetentionLadder → Type 0 where
  start : Accepted p l l
  next :
      {m n : RetentionLadder}
      → Accepted p l m
      → validate n (some p) (some m) ≡ ok tt
      → Accepted p l n

-- While disk pressure is active, any sequence of accepted ladders ends at one that keeps no more
-- than the first did, in any tier.
pub Accepted-Within :
    (p : DiskPressureState) (l m : RetentionLadder) → p.active ≡ true → Accepted p l m → Within m l
Accepted-Within p l m on start = Within-refl l
Accepted-Within p l n on (next {m = m} r h) =
    Within-trans ((grows_from-Within n m).0 (((validate-ok_pressure n p m).0 h).1 on))
      (Accepted-Within p l m on r)
