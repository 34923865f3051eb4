-- ===== src/K8sclient/Delegates.antt =====
-- GetNetworkDelegates, GetPodNetwork, tryLoadK8sPodDefaultNetwork and TryLoadPodDelegates: the
-- delegates that a pod's annotations add to the configuration.
pub mod Isolation
pub mod Devices
use multus_cni.Base.{
  String, ◌<>◌, Bool, true, false, not, ◌&&◌, ◌||◌, Option, none, some, List, [], ◌∷◌, contains,
  ◌==◌, ◌!=◌, string_eq, if◌then◌else◌,
}
use multus_cni.Base.Dict.{lookup}
use multus_cni.Base.Outcome.{and_then}
use multus_cni.Base.Result.{
  Result, ok, err, panic, Error, Kind, errorf, wrap, context, or_err, or_panic, ◌>>=◌, ◌>>◌,
}
use multus_cni.Types.{NetConf, DelegateNetConf, NetworkSelectionElement, ResourceMap}
use multus_cni.Conf.Netconf.{add_delegates}
use multus_cni.Conf.Gateway.{check_gateway_config}
use multus_cni.K8sclient.Annotation.{parse_pod_network_annotation}
use multus_cni.K8sclient.Client.{Pod, Client, ClientFactory, get_k8s_client}
use multus_cni.K8sclient.Device.{Allocated, get_kubernetes_delegate}

abbrev pub context_of {ℓ} : {A : Type ℓ} → String → Allocated A → Allocated A
context_of prefix (r, m) = (context prefix r, m)

unfoldable pub is_valid_namespace_reference : String → List String → Bool
is_valid_namespace_reference targetns allowed = contains allowed targetns

unfoldable pub check_isolation : NetConf → String → String → Result (Unit {0})
unfolding is_valid_namespace_reference
check_isolation conf default_namespace target =
    if conf.namespace_isolation
      && default_namespace != target
      && not (is_valid_namespace_reference target conf.non_isolated_namespaces)
    then err (
        errorf (
          "GetNetworkDelegates: namespace isolation enabled, annotation violates permission, pod is in namespace "
          <> default_namespace <> " but refers to target namespace " <> target))
    else ok tt

module _ (client : Client) (pod : Pod) (conf : NetConf) where
  unfoldable pub get_network_delegates :
      List NetworkSelectionElement → Option ResourceMap → Allocated (List DelegateNetConf)
  get_network_delegates [] m = (ok [], m)
  get_network_delegates (net ∷ networks) m =
      and_then (check_isolation conf pod.namespace net.namespace, m)
        λ _ m₀.
          and_then
            (context_of "GetNetworkDelegates: failed getting the delegate: "
              (get_kubernetes_delegate client net conf.conf_dir (some pod) m₀))
            λ delegate m₁.
              and_then (get_network_delegates networks m₁)
                λ delegates m₂. (ok (delegate ∷ delegates), m₂)

abbrev pub network_attachment_annot : String
network_attachment_annot = "k8s.v1.cni.cncf.io/networks"

abbrev pub default_net_annot : String
default_net_annot = "v1.multus-cni.io/default-network"

abbrev no_network_error : Error
no_network_error = record { kind = Kind.no_network; text = "no kubernetes network found" }

annotated_networks : Client → Pod → Option String → Result (List NetworkSelectionElement)
annotated_networks client pod none = err no_network_error
annotated_networks client pod (some annot) =
    if annot == ""
    then err no_network_error
    else parse_pod_network_annotation client.parsers annot pod.namespace

unfoldable pub get_pod_network : Client → Pod → Result (List NetworkSelectionElement)
unfolding annotated_networks
get_pod_network client pod =
    annotated_networks client pod (lookup network_attachment_annot pod.annotations)

-- `networks[0]`, where the list may be empty.
single_network : List NetworkSelectionElement → Result NetworkSelectionElement
single_network [] = panic
single_network (net ∷ []) = ok net
single_network (_ ∷ _ ∷ _) =
    err (errorf "tryLoadK8sPodDefaultNetwork: more than one default network is specified")

abbrev as_master : DelegateNetConf → DelegateNetConf
as_master d = record d { master_plugin = true }

default_network : Client → Pod → NetConf → Option String → Result (Option DelegateNetConf)
unfolding single_network
default_network client pod conf none = ok none
default_network client pod conf (some annot) = do
  networks ←
      context "tryLoadK8sPodDefaultNetwork: failed to parse CRD object: "
        (parse_pod_network_annotation client.parsers annot conf.multus_namespace)
  net ← single_network networks
  delegate ←
      context "tryLoadK8sPodDefaultNetwork: failed getting the delegate: "
        (get_kubernetes_delegate client net conf.conf_dir (some pod) none).0
  ok (some (as_master delegate))

unfoldable pub try_load_k8s_pod_default_network :
    Client → Pod → NetConf → Result (Option DelegateNetConf)
unfolding default_network
try_load_k8s_pod_default_network client pod conf =
    default_network client pod conf (lookup default_net_annot pod.annotations)

-- `conf.Delegates[0] = delegate`
unfoldable pub replace_first :
    Option DelegateNetConf → List DelegateNetConf → Result (List DelegateNetConf)
replace_first none delegates = ok delegates
replace_first (some d) [] = panic
replace_first (some d) (_ ∷ delegates) = ok (d ∷ delegates)

asks_gateway : List DelegateNetConf → Bool
asks_gateway [] = false
asks_gateway (d ∷ delegates) = elim d.gateway_request [
  | some gw ↦ true
  | none ↦ asks_gateway delegates
]

-- The check runs over all the delegates as soon as one of them asks for a gateway.
unfoldable pub filter_gateways : List DelegateNetConf → Result (List DelegateNetConf)
unfolding asks_gateway
filter_gateways delegates =
    if asks_gateway delegates then check_gateway_config delegates else ok delegates

-- What a function that changes its configuration leaves of it, also behind an error.
abbrev pub Loaded {ℓ} : Type ℓ → Type ℓ
Loaded A = Result A × NetConf

gateways_filtered : NetConf → Result (List DelegateNetConf) → Loaded (Unit {0})
gateways_filtered conf (ok delegates) = (ok tt, record conf { delegates = delegates })
gateways_filtered conf (err e) = (err e, conf)
gateways_filtered conf panic = (panic, conf)

-- The delegates of the pod are added behind those of the configuration.
with_delegates : NetConf → Result (List DelegateNetConf) → Loaded (Unit {0})
unfolding gateways_filtered filter_gateways add_delegates
with_delegates conf (ok delegates) =
    gateways_filtered (add_delegates delegates conf)
      (filter_gateways (add_delegates delegates conf).delegates)
with_delegates conf (err e) =
    (err (wrap "TryLoadPodDelegates: error in getting k8s network for pod: " e), conf)
with_delegates conf panic = (panic, conf)

-- An error of the type NoK8sNetworkError adds none.
unfoldable pub add_pod_networks :
    Client
    → Pod
    → NetConf
    → Option ResourceMap
    → Result (List NetworkSelectionElement)
    → Loaded (Unit {0})
unfolding with_delegates
add_pod_networks client pod conf m panic = (panic, conf)
add_pod_networks client pod conf m (err e) = elim e.kind [
  | Kind.no_network ↦ (ok tt, conf)
  | _ ↦ (err e, conf)
]
add_pod_networks client pod conf m (ok networks) =
    with_delegates conf (get_network_delegates client pod conf networks m).0

abbrev returning {ℓ} : {A B : Type ℓ} → B → Loaded A → Loaded B
returning b (ok a, conf) = (ok b, conf)
returning b (err e, conf) = (err e, conf)
returning b (panic, conf) = (panic, conf)

-- The configuration whose first delegate the pod has replaced.
with_first :
    Client
    → Pod
    → NetConf
    → Option ResourceMap
    → Result (List DelegateNetConf)
    → Loaded (Option Client)
unfolding add_pod_networks
with_first client pod conf m (ok delegates) =
    let conf' = record conf { delegates = delegates } in
    returning (some client) (add_pod_networks client pod conf' m (get_pod_network client pod))
with_first client pod conf m (err e) = (err e, conf)
with_first client pod conf m panic = (panic, conf)

-- With a client the pod is read, and a nil pod panics. Without one the configuration has to have
-- delegates of its own. The client comes back, as the source returns it.
load_with_client :
    Option Client → Option Pod → NetConf → Option ResourceMap → Loaded (Option Client)
unfolding with_first try_load_k8s_pod_default_network replace_first
load_with_client none pod conf m = elim conf.delegates [
  | [] ↦ (err (errorf "TryLoadPodDelegates: must have either Kubernetes config or delegates"), conf)
  | _ ∷ _ ↦ (ok none, conf)
]
load_with_client (some client) none conf m = (panic, conf)
load_with_client (some client) (some pod) conf m = with_first client pod conf m (
    context
      "TryLoadPodDelegates: error in loading K8s cluster default network from pod annotation: "
      (try_load_k8s_pod_default_network client pod conf)
    >>= λ default. replace_first default conf.delegates)

load_with_factory :
    Result (Option Client) → Option Pod → NetConf → Option ResourceMap → Loaded (Option Client)
unfolding load_with_client
load_with_factory (ok client) pod conf m = load_with_client client pod conf m
load_with_factory (err e) pod conf m = (err e, conf)
load_with_factory panic pod conf m = (panic, conf)

unfoldable pub try_load_pod_delegates :
    ClientFactory
    → Option Pod
    → NetConf
    → Option Client
    → Option ResourceMap
    → Loaded (Option Client)
unfolding load_with_factory
try_load_pod_delegates F pod conf client m =
    load_with_factory (get_k8s_client F conf.kubeconfig client) pod conf m
