-- ===== src/CertApprover/Queueing.antt =====
-- handleErr and processNextItem of the controller, over a rate limiting queue.
pub mod Retries
use Prim.Native.Char.{Char, code}
use Prim.Native.String.{[], ◌∷◌}
use multus_cni.Base.{
  ℕ, ◌+◌, String, ◌<>◌, Bool, true, false, not, ◌&&◌, ◌||◌, Option, none, some, List, [], ◌∷◌, ◌++◌,
  ◌≡◌, ◌≢◌, ltb, contains, ◌==◌, ◌!=◌, nat_eq, string_eq, if◌then◌else◌,
}
use multus_cni.Base.Outcome.{Outcome, next}
use multus_cni.Base.Result.{
  Result, ok, err, panic, Error, errorf, wrap, context, or_err, or_panic, ◌>>=◌,
}
use multus_cni.Json.{Bytes}
use multus_cni.Text.{starts_with}
use multus_cni.CertApprover.Decision.{Libraries, Request, process_item, max_retries}

-- The rate limiting queue of package workqueue, with the laws of its history of a key.
pub record Queue (Q : Type 0) : Type 0 where
  pub num_requeues : Q → String → ℕ
  pub forget : String → Q → Q
  pub add_rate_limited : String → Q → Q
  pub forgets : (key : String) (q : Q) → num_requeues (forget key q) key ≡ 0
  pub counts :
      (key : String) (q : Q) → num_requeues (add_rate_limited key q) key ≡ num_requeues q key + 1

module _ {Q : Type 0} (W : Queue Q) where
  -- A failed key is put back until its retries are used up.
  unfoldable pub handle_err : Option Error → String → Q → Q
  handle_err none key q = W.forget key q
  handle_err (some e) key q =
      if ltb (W.num_requeues q key) max_retries then W.add_rate_limited key q else W.forget key q

  item_processed : String → Q → Result (Unit {0}) → Result Q
  unfolding handle_err
  item_processed key q (ok _) = ok (handle_err none key q)
  item_processed key q (err e) = ok (handle_err (some e) key q)
  item_processed key q panic = panic

  -- processNextItem for the key that the queue gives: the calls of the API server, and the queue behind.
  unfoldable pub process_next_item : Libraries → String → Q → Result Q × List Request
  unfolding item_processed process_item
  process_next_item L key q =
      let (r, requests) = process_item L key in (item_processed key q r, requests)
