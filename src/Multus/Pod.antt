-- ===== src/Multus/Pod.antt =====
-- GetPod: the pod of a command, polled from the informer or the API server.
pub mod Identity
use multus_cni.Base.{
  String, ◌<>◌, Bool, true, false, not, ◌&&◌, ◌||◌, Option, none, some, List, [], ◌∷◌, ◌==◌, ◌!=◌,
  string_eq, if◌then◌else◌,
}
use multus_cni.Base.Result.{Result, ok, err, panic, Error, Kind, errorf, wrap, ◌>>=◌}
use multus_cni.Types.{K8sArgs}
use multus_cni.K8sclient.Client.{Pod, is_static_pod}

-- cmdErr: the text of an error of a command, with the pod where it is known.
abbrev pub cmd_prefix : Option K8sArgs → String
cmd_prefix none = "Multus: "
cmd_prefix (some a) =
    "Multus: [" <> a.pod_namespace <> "/" <> a.pod_name <> "/" <> a.pod_uid <> "]: "

abbrev pub cmd_err : Option K8sArgs → String → Error
cmd_err k8s_args text = errorf (cmd_prefix k8s_args <> text)

abbrev is_not_found : Error → Bool
is_not_found e = elim e.kind [ Kind.not_found ↦ true | _ ↦ false ]

unfoldable pub is_critical_request_retriable : Error → Bool
is_critical_request_retriable e = elim e.kind [
  | Kind.unavailable ↦ true
  | Kind.internal ↦ true
  | Kind.reset ↦ true
  | Kind.refused ↦ true
  | _ ↦ false
]

-- What the client reads of the pod: whether it has an informer, the answers to the attempts that
-- PollImmediate makes until its timeout, and the answer of the API server to the one that follows.
pub record PodReads : Type 0 where
  pub informer : Bool
  pub attempts : List (Result Pod)
  pub live : Result Pod

-- PollImmediate over GetPodContext.
unfoldable pub poll : (Error → Bool) → List (Result Pod) → Result Pod
poll retry [] = err (errorf "timed out waiting for the condition")
poll retry (ok pod ∷ attempts) = ok pod
poll retry (err e ∷ attempts) = let rest = poll retry attempts in if retry e then rest else err e
poll retry (panic ∷ attempts) = panic

unfoldable pub retries : PodReads → Bool → Error → Bool
unfolding is_critical_request_retriable
retries reads is_del e =
    is_critical_request_retriable e || (reads.informer && not is_del && is_not_found e)

module _ (quote : String → String) (k8s_args : K8sArgs) (is_del : Bool) where
  -- The error of the last attempt, made straight at the API server.
  live_pod : Result Pod → Result (Option Pod)
  live_pod (ok pod) = ok (some pod)
  live_pod (err e) = err (cmd_err (some k8s_args) ("error waiting for pod: " <> e.text))
  live_pod panic = panic

  polled : PodReads → Result Pod → Result (Option Pod)
  unfolding live_pod
  polled reads (ok pod) = ok (some pod)
  polled reads (err e) = if is_del && is_not_found e then ok none else live_pod reads.live
  polled reads panic = panic

  -- The pod has to have the UID of the arguments, if there is one, or be a static pod.
  unfoldable pub is_other_pod : Pod → Bool
  unfolding is_static_pod
  is_other_pod pod =
      k8s_args.pod_uid != "" && pod.uid != k8s_args.pod_uid && not (is_static_pod pod)

  check_uid : Option Pod → Result (Option Pod)
  unfolding is_other_pod
  check_uid none = ok none
  check_uid (some pod) =
      if is_other_pod pod
      then if is_del
        then ok none
        else err (
            cmd_err (some k8s_args) (
              "expected pod UID "
              <> quote k8s_args.pod_uid
              <> " but got "
              <> quote pod.uid
              <> " from Kube API"))
      else ok (some pod)

  unfoldable pub get_pod : Option PodReads → Result (Option Pod)
  unfolding polled check_uid poll retries
  get_pod none = ok none
  get_pod (some reads) = polled reads (poll (retries reads is_del) reads.attempts) >>= check_uid
