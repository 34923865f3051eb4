-- ===== src/CertApprover/Queueing/Retries.antt =====
-- How often a request that fails is tried.
use multus_cni.Base.{ℕ, zero, suc, ◌≤◌, String, ◌≡◌, refl, true, some, ltb, string_eq, arith}
use multus_cni.Base.Result.{Error}
use multus_cni.CertApprover.Decision.{max_retries}
use multus_cni.CertApprover.Queueing.{Queue, handle_err}

below : (n k : ℕ) → k ≡ n → suc n ≤ max_retries → ltb k max_retries ≡ true
below n k e le = ground (arith, e, le)

module _ {Q : Type 0} (W : Queue Q) where
  -- The queue after a number of failures of a key, one after the other.
  abbrev pub failures : Error → String → ℕ → Q → Q
  failures e key zero q = q
  failures e key (suc n) q = handle_err W (some e) key (failures e key n q)

  counted :
      (e : Error) (key : String) (n : ℕ) (q : Q)
      → W.num_requeues q key ≡ 0
      → n ≤ max_retries
      → W.num_requeues (failures e key n q) key ≡ n
  unfolding handle_err
  counted e key zero q fresh le = fresh
  counted e key (suc n) q fresh le =
      let before = counted e key n q fresh (omega (arith, le)) in
      rw (below n _ before le) (omega (arith, W.counts key (failures e key n q), before))

  -- A key that fails again and again is put back five times, and dropped at the sixth failure.
  pub handle_err-dropped :
      (e : Error) (key : String) (q : Q)
      → W.num_requeues q key ≡ 0
      → (W.num_requeues (failures e key max_retries q) key ≡ max_retries)
        × (failures e key (suc max_retries) q ≡ W.forget key (failures e key max_retries q))
  unfolding handle_err
  handle_err-dropped e key q fresh =
      let used = counted e key max_retries q fresh (omega arith) in (used, rw used refl)
