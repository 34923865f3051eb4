-- ===== src/K8sclient/Device.antt =====
-- getKubernetesDelegate: one delegate, and the device that it takes from the resources of the pod.
pub mod Laws
use multus_cni.Base.{
  ℕ, zero, suc, ◌+◌, String, ◌<>◌, Bool, true, false, ◌&&◌, Option, none, some, List, [], ◌∷◌, ltb,
  length, get_elem?, ◌==◌, ◌!=◌, string_eq, if◌then◌else◌,
}
use multus_cni.Base.Dict.{Dict, lookup, insert}
use multus_cni.Base.Result.{Result, ok, err, panic, context, wrap, ◌>>=◌}
use multus_cni.Json.{Bytes}
use multus_cni.Types.{DelegateNetConf, NetworkSelectionElement, ResourceInfo, ResourceMap}
use multus_cni.Conf.Delegate.{load_delegate_net_conf}
use multus_cni.K8sclient.Client.{Pod, NetAttachDef, Client}

abbrev pub resource_name_annot : String
resource_name_annot = "k8s.v1.cni.cncf.io/resourceName"

abbrev or_empty : Option String → String
or_empty none = ""
or_empty (some s) = s

-- The device at the index of the resource, and the index past it.
unfoldable pub take_device : String → ResourceMap → Option ResourceInfo → String × ResourceMap
take_device resource m none = ("", m)
take_device resource m (some entry) = elim (get_elem? entry.device_ids entry.index) [
  | none ↦ ("", m)
  | some id ↦ (id, insert resource (record entry { index = entry.index + 1 }) m)
]

-- A map that is nil is fetched from the kubelet.
unfoldable pub fetch_resources : Client → Pod → Option ResourceMap → Result ResourceMap
fetch_resources client pod (some m) = ok m
fetch_resources client pod none = do
  get_map ←
      context "getKubernetesDelegate: failed to get a ResourceClient instance: "
        client.resource_client
  context "getKubernetesDelegate: failed to get resourceMap from ResourceClient: " (get_map pod)

-- `pod != nil && pod.Name != "" && pod.Namespace != ""`
abbrev pub named_pod : Option Pod → Option Pod
named_pod none = none
named_pod (some pod) = if pod.name != "" && pod.namespace != "" then some pod else none

-- The device of a delegate and the map after it; an error of the fetch leaves the map nil.
unfoldable pub allocate :
    Client → Option String → Option Pod → Option ResourceMap → Result (String × Option ResourceMap)
unfolding take_device fetch_resources
allocate client none pod m = ok ("", m)
allocate client (some resource) none m = ok ("", m)
allocate client (some resource) (some pod) m = do
  resources ← fetch_resources client pod m
  let taken = take_device resource resources (lookup resource resources)
  ok (taken.0, some taken.1)

-- A result with the resource map that the caller sees behind it. The entries are shared by their
-- pointers, so an index that was counted up stays so when an error follows.
abbrev pub Allocated {ℓ} : Type ℓ → Type ℓ
Allocated A = Result A × Option ResourceMap

-- The configuration of the network becomes a delegate.
unfoldable pub load_network :
    Client → NetAttachDef → NetworkSelectionElement → String → String → Result DelegateNetConf
load_network client nad net confdir device_id = do
  config_bytes ← client.cni_config nad confdir
  load_delegate_net_conf client.decoders config_bytes (some net) device_id
      (or_empty (lookup resource_name_annot nad.annotations))

delegate_of :
    Client
    → NetAttachDef
    → NetworkSelectionElement
    → String
    → Option ResourceMap
    → Result (String × Option ResourceMap)
    → Allocated DelegateNetConf
delegate_of client nad net confdir m (ok (device_id, m')) =
    (load_network client nad net confdir device_id, m')
delegate_of client nad net confdir m (err e) = (err e, m)
delegate_of client nad net confdir m panic = (panic, m)

network_of :
    Client
    → NetworkSelectionElement
    → String
    → Option Pod
    → Option ResourceMap
    → Result NetAttachDef
    → Allocated DelegateNetConf
unfolding delegate_of
network_of client net confdir pod m (ok nad) =
    delegate_of client nad net confdir m
      (allocate client (lookup resource_name_annot nad.annotations) (named_pod pod) m)
network_of client net confdir pod m (err e) = (
  err (
      wrap
        ("getKubernetesDelegate: cannot find a network-attachment-definition (" <> net.name
          <> ") in namespace (" <> net.namespace <> "): ")
        e),
  m,
)
network_of client net confdir pod m panic = (panic, m)

unfoldable pub get_kubernetes_delegate :
    Client
    → NetworkSelectionElement
    → String
    → Option Pod
    → Option ResourceMap
    → Allocated DelegateNetConf
unfolding network_of
get_kubernetes_delegate client net confdir pod m =
    network_of client net confdir pod m (client.get_net_attach_def net.namespace net.name)
