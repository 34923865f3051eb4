-- ===== src/Multus/Pod/Identity.antt =====
-- Which pod a command works on.
use mathlib.Core.Bool.{false≢true}
use multus_cni.Base.{
  String, ◌≡◌, ◌≢◌, refl, ◌⊎◌, inl, inr, Bool, true, false, ◌&&◌, Option, none, some, List, [], ◌∷◌,
  string_eq, arith, Bool-cases,
}
use multus_cni.Base.Result.{
  Result, ok, err, panic, Error, Ensures, returns, fails, panics, Ensures-bind, Ensures-map,
  of_Ensures,
}
use multus_cni.Types.{K8sArgs}
use multus_cni.K8sclient.Client.{Pod, is_static_pod}
use multus_cni.Multus.Pod.{
  PodReads, poll, retries, live_pod, polled, is_other_pod, is_not_found, check_uid, get_pod,
}

-- A pod that one of the attempts has read.
abbrev pub IsRead : List (Result Pod) → Pod → Type 0
IsRead [] pod = ⊥
IsRead (r ∷ attempts) pod = (r ≡ ok pod) ⊎ IsRead attempts pod

module _ (quote : String → String) (k8s_args : K8sArgs) where
  -- A pod that the commands may work on.
  abbrev pub IsAsked : PodReads → Pod → Type 0
  IsAsked reads pod = IsRead reads.attempts pod ⊎ (reads.live ≡ ok pod)

  abbrev pub IsMatching : Pod → Type 0
  IsMatching pod =
      (k8s_args.pod_uid ≡ "") ⊎ (pod.uid ≡ k8s_args.pod_uid) ⊎ (is_static_pod pod ≡ true)

  poll-IsRead :
      (retry : Error → Bool) (attempts : List (Result Pod))
      → Ensures (λ pod. IsRead attempts pod) (poll retry attempts)
  unfolding poll
  poll-IsRead retry [] = fails
  poll-IsRead retry (ok pod ∷ attempts) = returns (inl refl)
  poll-IsRead retry (err e ∷ attempts) = elim (Bool-cases (retry e)) [
    | inl h ↦ rw h (Ensures-map (λ pod r. inr r) (poll-IsRead retry attempts))
    | inr h ↦ rw h fails
  ]
  poll-IsRead retry (panic ∷ attempts) = panics

  -- What is known of the result of GetPod.
  abbrev Found : PodReads → Bool → Option Pod → Type 0
  Found reads is_del none = is_del ≡ true
  Found reads is_del (some pod) = IsAsked reads pod

  abbrev Checked : PodReads → Bool → Option Pod → Type 0
  Checked reads is_del none = is_del ≡ true
  Checked reads is_del (some pod) = IsAsked reads pod × IsMatching pod

  live_pod-Found :
      (reads : PodReads) (is_del : Bool) (r : Result Pod)
      → reads.live ≡ r
      → Ensures (Found reads is_del) (live_pod quote k8s_args is_del r)
  unfolding live_pod
  live_pod-Found reads is_del (ok pod) e = returns (inr e)
  live_pod-Found reads is_del (err f) e = fails
  live_pod-Found reads is_del panic e = panics

  polled-Found :
      (reads : PodReads) (is_del : Bool) {r : Result Pod}
      → Ensures (λ pod. IsRead reads.attempts pod) r
      → Ensures (Found reads is_del) (polled quote k8s_args is_del reads r)
  unfolding polled
  polled-Found reads is_del (returns p) = returns (inl p)
  polled-Found reads is_del panics = panics
  polled-Found reads is_del (fails {e}) = elim (Bool-cases (is_del && is_not_found e)) [
    | inl h ↦ rw h (returns (ground arith))
    | inr h ↦ rw h (live_pod-Found reads is_del reads.live refl)
  ]

  is_other_pod-IsMatching :
      (is_del : Bool) (pod : Pod) → is_other_pod quote k8s_args is_del pod ≡ false → IsMatching pod
  unfolding is_other_pod
  is_other_pod-IsMatching is_del pod h = ground arith

  check_uid-Checked :
      (reads : PodReads) (is_del : Bool) (o : Option Pod)
      → Found reads is_del o
      → Ensures (Checked reads is_del) (check_uid quote k8s_args is_del o)
  unfolding check_uid
  check_uid-Checked reads is_del none f = returns f
  check_uid-Checked reads is_del (some pod) f =
      elim (Bool-cases (is_other_pod quote k8s_args is_del pod)) [
        | inl h ↦
            rw h (elim (Bool-cases is_del) [
              | inl del ↦ rw del (returns refl)
              | inr add ↦ rw add fails
            ])
        | inr h ↦ rw h (returns (f, is_other_pod-IsMatching is_del pod h))
      ]

  get_pod-Checked :
      (reads : PodReads) (is_del : Bool)
      → Ensures (Checked reads is_del) (get_pod quote k8s_args is_del (some reads))
  unfolding get_pod
  get_pod-Checked reads is_del =
      Ensures-bind (polled-Found reads is_del (poll-IsRead (retries reads is_del) reads.attempts))
        (check_uid-Checked reads is_del)

  -- A pod that a command is given was read in one of the attempts or in the last one, and it is the
  -- pod of the arguments: they name no UID or that of the pod, or the pod is static.
  pub get_pod-IsMatching :
      (reads : PodReads) (is_del : Bool) {pod : Pod}
      → get_pod quote k8s_args is_del (some reads) ≡ ok (some pod)
      → IsAsked reads pod × IsMatching pod
  get_pod-IsMatching reads is_del h = of_Ensures (get_pod-Checked reads is_del) h

  -- Where there is a client, an addition never goes on without a pod.
  pub get_pod-ne_none : (reads : PodReads) → get_pod quote k8s_args false (some reads) ≢ ok none
  get_pod-ne_none reads h = absurd (false≢true (of_Ensures (get_pod-Checked reads false) h))
