-- ===== src/Tests/CertApprover.antt =====
-- A request of a node, and a request that fails.
use mathlib.Core.List.Memᴰ.{head}
use multus_cni.Base.{
  ℕ, suc, ◌+◌, String, ◌≡◌, refl, true, none, some, [], ◌∷◌, eq_self, ◌==◌, string_eq, nat_eq,
  if◌then◌else◌,
}
use multus_cni.Base.Result.{ok, Error, errorf}
use multus_cni.Json.{malformed}
use multus_cni.CertApprover.Decision.{
  Csr, pos, Libraries, approval, approved, with_condition, process_item, examined, user_node,
  split_last, denial, is_approved_or_denied, max_retries,
}
use multus_cni.CertApprover.Queueing.{Queue}
use multus_cni.CertApprover.Decision.Trusted.{IsJustified, process_item-IsJustified}
use multus_cni.CertApprover.Queueing.Retries.{failures, handle_err-dropped}

abbrev csr : Csr
csr = record {
  name = "csr-1";
  signer_name = "kubernetes.io/kube-apiserver-client";
  request = "PEM";
  username = "system:node:worker";
  groups = "system:nodes" ∷ "system:authenticated" ∷ [];
  usages = "client auth" ∷ "digital signature" ∷ [];
  expiration_seconds = some (pos 600);
  certificate = [];
  conditions = [];
}

abbrev libraries : Libraries
libraries = record {
  decode = λ _. some (malformed "der");
  parse = λ _.
      ok (record { common_name = "system:multus:worker"; organization = "system:multus" ∷ [] });
  is_subdomain = λ _. true;
  get_by_key = λ _. ok (some csr);
  update_approval = λ _. none;
  update = λ _. none;
  quote = λ s. s;
}

approves :
    process_item libraries "csr-1" ≡ (ok tt, approval (with_condition libraries csr approved) ∷ [])
unfolding process_item examined user_node split_last denial is_approved_or_denied string_eq nat_eq
approves = refl

process_item-IsJustified_example :
    IsJustified libraries "csr-1" (approval (with_condition libraries csr approved))
unfolding process_item examined user_node split_last denial is_approved_or_denied string_eq nat_eq
process_item-IsJustified_example =
    process_item-IsJustified libraries "csr-1" (with_condition libraries csr approved) (head refl)

-- The history of each key as a function.
abbrev History : Type 0
History = String → ℕ

set : String → ℕ → History → History
set key n q k = if k == key then n else q k

set_self : (key : String) (n : ℕ) (q : History) → set key n q key ≡ n
unfolding set
set_self key n q = rw (eq_self key) refl

abbrev queue : Queue History
queue = record {
  num_requeues = λ q key. q key;
  forget = λ key q. set key 0 q;
  add_rate_limited = λ key q. set key (q key + 1) q;
  forgets = λ key q. set_self key 0 q;
  counts = λ key q. set_self key (q key + 1) q;
}

abbrev refused : Error
refused = errorf "conflict"

abbrev new : History
new _ = 0

handle_err-dropped_example :
    (queue.num_requeues (failures queue refused "csr-1" max_retries new) "csr-1" ≡ max_retries)
    × (failures queue refused "csr-1" (suc max_retries) new
        ≡ queue.forget "csr-1" (failures queue refused "csr-1" max_retries new))
handle_err-dropped_example = handle_err-dropped queue refused "csr-1" new refl
