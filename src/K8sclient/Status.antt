-- ===== src/K8sclient/Status.antt =====
-- SetNetworkStatus and SetPodNetworkStatusAnnotation.
pub mod Written
use multus_cni.Base.{
  String, ◌<>◌, not, ◌&&◌, Option, none, some, List, [], ◌∷◌, ◌!=◌, string_eq, if◌then◌else◌,
}
use multus_cni.Base.Result.{Result, ok, err, errorf, context, ◌>>=◌}
use multus_cni.Json.{Fields}
use multus_cni.Types.{NetConf, K8sArgs}
use multus_cni.K8sclient.Client.{Pod, Client, ClientFactory, get_k8s_client, is_static_pod}

-- The pod whose annotation was written, if one was: with no status there is nothing to write.
abbrev pub Annotated : Type 0
Annotated = Result (Option Pod)

write_status : K8sArgs → Client → Pod → List Fields → Annotated
write_status a client pod [] = ok none
write_status a client pod (status ∷ more) = do
  _ ←
      context
        ("SetPodNetworkStatusAnnotation: failed to update the pod " <> a.pod_name
          <> " in out of cluster comm: ")
        (client.update_status pod (status ∷ more))
  ok (some pod)

module _ (quote : String → String) where
  check_pod : K8sArgs → Client → List Fields → Pod → Annotated
  unfolding write_status is_static_pod
  check_pod a client statuses pod =
      if a.pod_uid != "" && pod.uid != a.pod_uid && not (is_static_pod pod)
      then err (
          errorf (
            "SetNetworkStatus: expected pod "
            <> a.pod_namespace
            <> "/"
            <> a.pod_name
            <> " UID "
            <> quote a.pod_uid
            <> " but got "
            <> quote pod.uid
            <> " from Kube API"))
      else write_status a client pod statuses

  with_client : K8sArgs → List Fields → NetConf → Option Client → Annotated
  unfolding check_pod
  with_client a statuses conf none = elim conf.delegates [
    | [] ↦ err (errorf "SetNetworkStatus: must have either Kubernetes config or delegates")
    | _ ∷ _ ↦ ok none
  ]
  with_client a statuses conf (some client) = do
    pod ←
        context
          ("SetPodNetworkStatusAnnotation: failed to query the pod " <> a.pod_name
            <> " in out of cluster comm: ")
          (client.get_pod a.pod_namespace a.pod_name)
    check_pod a client statuses pod

  unfoldable pub set_network_status :
      ClientFactory → Option Client → K8sArgs → List Fields → NetConf → Annotated
  unfolding with_client
  set_network_status F client a statuses conf = do
    found ← context "SetNetworkStatus: " (get_k8s_client F conf.kubeconfig client)
    with_client a statuses conf found
