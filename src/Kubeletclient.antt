-- ===== src/Kubeletclient.antt =====
-- pkg/kubeletclient/kubeletclient.go: the devices of pods, from the kubelet or its checkpoint file.
pub mod Listed
use multus_cni.Base.{
  ℕ, String, ◌<>◌, Bool, true, false, ◌&&◌, ◌||◌, Option, none, some, List, [], ◌∷◌, ◌++◌, ◌==◌,
  ◌!=◌, string_eq, if◌then◌else◌,
}
use multus_cni.Base.Result.{Result, ok, err, panic, Error, errorf, context, ◌>>=◌}
use multus_cni.Json.{Bytes}
use multus_cni.Os.{Os}
use multus_cni.Text.{split}
use multus_cni.Types.{ResourceMap}
use multus_cni.Checkpoint.{Decoder, get_checkpoint, checkpoint_resource_map}
use multus_cni.K8sclient.Client.{Pod}
use multus_cni.Resources.{add_ids}

-- What the kubelet lists: the devices of each container, and the names of the CDI devices in the
-- claims of its dynamic resources.
pub record ContainerDevices : Type 0 where
  pub resource_name : String
  pub device_ids : List String

pub record DynamicResource : Type 0 where
  pub class_name : String
  pub claim_resources : List (List String)

pub record Container : Type 0 where
  pub devices : List ContainerDevices
  pub dynamic_resources : List DynamicResource

pub record PodResources : Type 0 where
  pub name : String
  pub namespace : String
  pub containers : List Container

unfoldable pub get_device_plugin_resources : List ContainerDevices → ResourceMap → ResourceMap
unfolding add_ids
get_device_plugin_resources [] m = m
get_device_plugin_resources (dev ∷ devs) m =
    get_device_plugin_resources devs (add_ids dev.resource_name dev.device_ids m)

cdi_parts : List String → List String
cdi_parts (kind ∷ device ∷ []) = device ∷ []
cdi_parts _ = []

-- The device of a CDI name "vendor/class=device"; 61 is "=".
unfoldable pub cdi_ids : List String → List String
unfolding cdi_parts split
cdi_ids [] = []
cdi_ids (name ∷ names) = cdi_parts (split 61 name) ++ cdi_ids names

unfoldable pub claim_ids : List (List String) → List String
unfolding cdi_ids
claim_ids [] = []
claim_ids (names ∷ claims) = cdi_ids names ++ claim_ids claims

unfoldable pub get_dra_resources : List DynamicResource → ResourceMap → ResourceMap
unfolding add_ids claim_ids
get_dra_resources [] m = m
get_dra_resources (dynamic ∷ more) m =
    get_dra_resources more (add_ids dynamic.class_name (claim_ids dynamic.claim_resources) m)

unfoldable pub add_containers : List Container → ResourceMap → ResourceMap
unfolding get_device_plugin_resources get_dra_resources
add_containers [] m = m
add_containers (cnt ∷ more) m =
    add_containers more
      (get_dra_resources cnt.dynamic_resources (get_device_plugin_resources cnt.devices m))

unfoldable pub add_pods : String → String → List PodResources → ResourceMap → ResourceMap
unfolding add_containers
add_pods name ns [] m = m
add_pods name ns (pr ∷ more) m =
    add_pods name ns more
      (if pr.name == name && pr.namespace == ns then add_containers pr.containers m else m)

unfoldable pub kubelet_resource_map : List PodResources → Pod → Result ResourceMap
unfolding add_pods
kubelet_resource_map resources pod =
    if pod.name == "" || pod.namespace == ""
    then err (errorf "GetPodResourceMap: Pod name or namespace cannot be empty")
    else ok (add_pods pod.name pod.namespace resources [])

-- os.Stat of a socket, the connection of grpc to it, and the answer of the kubelet behind it.
pub record Kubelet : Type 0 where
  pub stat : String → Option Error
  pub dial : String → Option Error
  pub list : String → Result (List PodResources)

abbrev has_kubelet_api_endpoint : Kubelet → String → Bool
has_kubelet_api_endpoint K path = elim (K.stat path) [ none ↦ true | some _ ↦ false ]

dialed : Kubelet → String → Option Error → Result (List PodResources)
dialed K path (some e) = err (
    errorf (
      "getKubeletClient: error getting grpc client: error dialing socket " <> path <> ": "
      <> e.text))
dialed K path none =
    context "getKubeletClient: error getting pod resources from client: "
      (context "getPodResources: failed to list pod resources: " (K.list path))

unfoldable pub get_kubelet_client : Kubelet → String → Result (List PodResources)
unfolding dialed
get_kubelet_client K path = dialed K path (K.dial path)

unfoldable pub socket_path : Os → String → String
socket_path os given =
    if given != ""
    then given
    else os.join ("/var/lib/kubelet/pod-resources" ∷ "kubelet" ∷ []) <> ".sock"

-- GetResourceClient, with the GetPodResourceMap of the client that it returns.
unfoldable pub get_resource_client :
    Kubelet → Decoder → Os → String → Result (Pod → Result ResourceMap)
unfolding socket_path get_kubelet_client kubelet_resource_map get_checkpoint checkpoint_resource_map
get_resource_client K decode os given =
    if has_kubelet_api_endpoint K (socket_path os given)
    then (get_kubelet_client K (socket_path os given) >>= λ resources.
        ok (kubelet_resource_map resources))
    else (get_checkpoint decode os >>= λ entries. ok (checkpoint_resource_map entries))
