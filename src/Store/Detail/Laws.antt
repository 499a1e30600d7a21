-- ===== src/Store/Detail/Laws.antt =====
-- What the batched prune of fast process rows leaves.
use tinytop.Prelude.{
  ◌≡◌, ℕ, zero, suc, ◌+◌, ◌-◌, ◌≤◌, ◌<◌, min, Bool, true, false, ltb, List, [], ◌∷◌, length,
  if◌then◌else◌, ok, arith, Bool-cases, inl, inr, refl, ap, sym, ◌∙◌,
}
use tinytop.Prelude.Int.{ℤ, ltb_ℤ}
use tinytop.Store.Exec.{World, pure, >>=-eq-ok}
use tinytop.Store.Rows.{Db, ProcessRow}
use tinytop.Store.Tables.{delete_where, count_where}
use tinytop.Store.Detail.{
  delete_first, prune_fast_batch, prune_fast_loop, prune_process_fast_history,
  process_fast_prune_batch, add_u64,
}

module _ {A : Type 0} where
  -- with enough allowance the first rows that satisfy a test are all of them
  delete_first-eq-delete_where :
      (n : ℕ) (p : A → Bool) (rows : List A)
      → count_where p rows ≤ n
      → delete_first n p rows ≡ delete_where p rows
  unfolding delete_first delete_where count_where
  delete_first-eq-delete_where n p [] h = refl
  delete_first-eq-delete_where n p (r ∷ rows) h = elim (Bool-cases (p r)) [
    | inl e ↦ ground (arith, delete_first-eq-delete_where (n - 1) p rows)
    | inr e ↦ ground (arith, delete_first-eq-delete_where n p rows)
  ]

  -- what is deleted later is deleted all the same
  delete_where-delete_first :
      (n : ℕ) (p : A → Bool) (rows : List A)
      → delete_where p (delete_first n p rows) ≡ delete_where p rows
  unfolding delete_first delete_where
  delete_where-delete_first n p [] = refl
  delete_where-delete_first n p (r ∷ rows) = elim (Bool-cases (p r)) [
    | inl e ↦
        ground (arith, delete_where-delete_first (n - 1) p rows, delete_where-delete_first n p rows)
    | inr e ↦ ground (arith, delete_where-delete_first n p rows)
  ]

  length-delete_first :
      (n : ℕ) (p : A → Bool) (rows : List A)
      → length (delete_first n p rows) + min n (count_where p rows) ≡ length rows
  unfolding delete_first count_where
  length-delete_first n p [] = ground arith
  length-delete_first n p (r ∷ rows) = elim (Bool-cases (p r)) [
    | inl e ↦ ground (arith, length-delete_first (n - 1) p rows, length-delete_first n p rows)
    | inr e ↦ ground (arith, length-delete_first n p rows)
  ]

-- a row older than the cutoff
abbrev pub old : ℤ → ProcessRow → Bool
old cutoff r = ltb_ℤ r.captured_at_ms cutoff

module _ {A B : Type 0} (b : Bool) (m k : A → B) (a : A) where
  if_true : b ≡ true → (if b then m else k) a ≡ m a
  if_true h = cc

  if_false : b ≡ false → (if b then m else k) a ≡ k a
  if_false h = cc

module _ {F : Type 0} where
  batch-ok :
      (cutoff : ℤ) (d : ℕ) (w : World (Db F))
      → (prune_fast_batch cutoff w).0 ≡ ok d
      → (d ≡ min process_fast_prune_batch (count_where (old cutoff) w.db.process_samples_fast))
        × ((prune_fast_batch cutoff w).1.db.process_samples_fast
            ≡ delete_first process_fast_prune_batch (old cutoff) w.db.process_samples_fast)
  unfolding prune_fast_batch
  batch-ok cutoff d w h = (ground arith, ground arith)

  prune_fast_loop-ok :
      (fuel : ℕ) (cutoff : ℤ) (total n : ℕ) (w : World (Db F))
      → length w.db.process_samples_fast < fuel
      → (prune_fast_loop fuel cutoff total w).0 ≡ ok n
      → (prune_fast_loop fuel cutoff total w).1.db.process_samples_fast
        ≡ delete_where (old cutoff) w.db.process_samples_fast
  unfolding prune_fast_loop
  prune_fast_loop-ok zero cutoff total n w l h = absurd (omega arith)
  prune_fast_loop-ok (suc fuel) cutoff total n w l h =
      let k = λ (deleted : ℕ).
        if ltb deleted process_fast_prune_batch
        then pure (add_u64 total deleted)
        else prune_fast_loop fuel cutoff (add_u64 total deleted) in
      let (d, b, h', e) = >>=-eq-ok (prune_fast_batch cutoff) k w n h in
      let (d_is, rows) = batch-ok cutoff d w b in
      let size =
        length-delete_first process_fast_prune_batch (old cutoff) w.db.process_samples_fast in
      let all =
        delete_first-eq-delete_where process_fast_prune_batch (old cutoff)
          w.db.process_samples_fast in
      let later =
        delete_where-delete_first process_fast_prune_batch (old cutoff) w.db.process_samples_fast in
      let w' = (prune_fast_batch cutoff w).1 in
      elim (Bool-cases (ltb d process_fast_prune_batch)) [
        | inl c ↦
            let stop =
              if_true (ltb d process_fast_prune_batch) (pure (add_u64 total d))
                (prune_fast_loop fuel cutoff (add_u64 total d)) w' c in
            ap (λ v. v.db.process_samples_fast) (e ∙ ap (λ v. v.1) stop) ∙ rows ∙ all (ground arith)
        | inr c ↦
            let go =
              if_false (ltb d process_fast_prune_batch) (pure (add_u64 total d))
                (prune_fast_loop fuel cutoff (add_u64 total d)) w' c in
            let smaller = ap length rows in
            ap (λ v. v.db.process_samples_fast) (e ∙ ap (λ v. v.1) go)
            ∙ prune_fast_loop-ok fuel cutoff (add_u64 total d) n w' (ground arith)
                (sym (ap (λ v. v.0) go) ∙ h')
            ∙ ap (delete_where (old cutoff)) rows
            ∙ later
      ]

  -- A successful prune of the fast process rows deletes exactly the rows older than the cutoff,
  -- however many batches they take.
  pub prune_process_fast_history-ok :
      (cutoff : ℤ) (n : ℕ) (w : World (Db F))
      → (prune_process_fast_history cutoff w).0 ≡ ok n
      → (prune_process_fast_history cutoff w).1.db.process_samples_fast
        ≡ delete_where (old cutoff) w.db.process_samples_fast
  unfolding prune_process_fast_history
  prune_process_fast_history-ok cutoff n w h =
      prune_fast_loop-ok (suc (length w.db.process_samples_fast)) cutoff 0 n w (omega arith) h
