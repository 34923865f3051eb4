-- ===== src/K8sclient/Status/Written.antt =====
-- The network status of a pod that the API server answers for.
use multus_cni.Base.{
  String, ◌≡◌, refl, false, ◌!=◌, string_eq, eq_self, Option, none, some, List, [], ◌∷◌, arith,
}
use multus_cni.Base.Result.{ok}
use multus_cni.Json.{Fields}
use multus_cni.Types.{NetConf, K8sArgs}
use multus_cni.K8sclient.Client.{Pod, Client, ClientFactory, get_k8s_client}
use multus_cni.K8sclient.Status.{write_status, check_pod, with_client, set_network_status}

-- The API server has the pod of the arguments, and takes the annotations of it.
pub record IsKnown (client : Client) (a : K8sArgs) : Type 0 where
  pub pod : Pod
  pub reads : client.get_pod a.pod_namespace a.pod_name ≡ ok pod
  pub same : pod.uid ≡ a.pod_uid
  pub takes : (statuses : List Fields) → client.update_status pod statuses ≡ ok tt

module _ (quote : String → String) (F : ClientFactory) (client : Client) (a : K8sArgs)
    (known : IsKnown client a) where
  write_status-ok :
      (statuses : List Fields)
      → (o : Option Pod) × (write_status a client known.pod statuses ≡ ok o)
  unfolding write_status
  write_status-ok [] = (none, refl)
  write_status-ok (status ∷ more) = (some known.pod, rw (known.takes (status ∷ more)) refl)

  same_uid : (known.pod.uid != a.pod_uid) ≡ false
  same_uid = rw known.same (rw (eq_self a.pod_uid) refl)

  pub set_network_status-ok :
      (statuses : List Fields) (conf : NetConf)
      → (o : Option Pod) × (set_network_status quote F (some client) a statuses conf ≡ ok o)
  unfolding set_network_status with_client check_pod get_k8s_client
  set_network_status-ok statuses conf =
      let (o, written) = write_status-ok statuses in
      (o, rw known.reads (ground (arith, same_uid, written)))
