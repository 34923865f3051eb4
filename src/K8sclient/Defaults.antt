-- ===== src/K8sclient/Defaults.antt =====
-- getNetDelegate and GetDefaultNetworks: the cluster network and the default networks.
use multus_cni.Base.{
  String, ◌<>◌, Bool, true, false, not, Option, none, some, List, [], ◌∷◌, ◌==◌, string_eq, nat_eq,
  if◌then◌else◌,
}
use multus_cni.Base.Result.{Result, ok, err, panic, errorf, context, ◌>>=◌}
use multus_cni.Json.{Bytes}
use multus_cni.Text.{contains_any, ends_with}
use multus_cni.Types.{NetConf, CniConf, DelegateNetConf, ResourceMap}
use multus_cni.Conf.Delegate.{load_delegate_net_conf}
use multus_cni.Conf.Gateway.{check_system_namespaces}
use multus_cni.Conf.Netconf.{add_delegates}
use multus_cni.K8sclient.Annotation.{named_element}
use multus_cni.K8sclient.Client.{Pod, Client, ClientFactory, get_k8s_client}
use multus_cni.K8sclient.Device.{Allocated, get_kubernetes_delegate}
use multus_cni.Base.Outcome.{and_then}
use multus_cni.K8sclient.Delegates.{context_of}

-- Options 3 and 4: the network is a directory, a list of configurations or one configuration.
abbrev load_plain : Client → Bytes → Result DelegateNetConf
load_plain client config_bytes = load_delegate_net_conf client.decoders config_bytes none "" ""

from_conf : String → CniConf × Bytes → Result Bytes
from_conf netname (conf, bytes) =
    if conf.kind == ""
    then err (
        errorf (
          "error loading CNI config file " <> netname
          <> ": no 'type'; perhaps this is a .conflist?"))
    else ok bytes

from_directory : Client → String → List String → Result DelegateNetConf
from_directory client netname [] = err (errorf ("getNetDelegate: cannot find network: " <> netname))
from_directory client netname (_ ∷ _) = client.cni_config_from_file "" netname >>= load_plain client

from_file : Client → String → Bool → Result Bytes
unfolding from_conf
from_file client netname true =
    context ("error loading CNI conflist file " <> netname <> ": ")
      (client.conf_list_from_file netname)
from_file client netname false =
    context ("error loading CNI config file " <> netname <> ": ") (client.conf_from_file netname)
    >>= from_conf netname

from_stat : Client → String → Bool → Result DelegateNetConf
unfolding from_directory from_file
from_stat client netname true = client.conf_files netname >>= from_directory client netname
from_stat client netname false =
    from_file client netname (ends_with ".conflist" netname) >>= load_plain client

-- A map that is assigned to a variable of an inner scope: the outer one keeps nil, or the same map
-- with the entries that were counted up in it.
unfoldable pub shadowed : Option ResourceMap → Option ResourceMap → Option ResourceMap
shadowed none _ = none
shadowed (some _) m = m

-- Option 2: a configuration in the directory whose CNI name is the network's.
from_confdir :
    Client
    → String
    → Option ResourceMap
    → Option ResourceMap
    → Result Bytes
    → Allocated DelegateNetConf
unfolding shadowed
from_confdir client netname m m' (ok bytes) = (load_plain client bytes, m')
from_confdir client netname m m' (err e) =
    (err (errorf ("getNetDelegate: cannot find network: " <> netname)), shadowed m m')
from_confdir client netname m m' panic = (panic, m')

-- Option 1: the custom resource of that name, and option 2 where it has none.
from_name :
    Client
    → String
    → String
    → Option ResourceMap
    → Allocated DelegateNetConf
    → Allocated DelegateNetConf
unfolding from_confdir
from_name client netname confdir m (ok delegate, m') = (ok delegate, m')
from_name client netname confdir m (err e, m') =
    from_confdir client netname m m' (client.cni_config_from_file netname confdir)
from_name client netname confdir m (panic, m') = (panic, m')

unfoldable pub get_net_delegate :
    Client → Option Pod → String → String → String → Option ResourceMap → Allocated DelegateNetConf
unfolding from_stat from_name
get_net_delegate client pod netname confdir namespace m =
    if contains_any (λ c. c == b'/') netname
    then (client.stat_is_dir netname >>= from_stat client netname, m)
    else from_name client netname confdir m
        (get_kubernetes_delegate client (named_element (namespace, netname, "")) confdir pod m)

-- The loop over the default networks. Its `resourceMap` is declared inside the body, so every
-- iteration starts from the map of the function.
unfoldable pub default_delegates :
    Client
    → Option Pod
    → NetConf
    → List String
    → Option ResourceMap
    → Allocated (List DelegateNetConf)
unfolding get_net_delegate shadowed
default_delegates client pod conf [] m = (ok [], m)
default_delegates client pod conf (netname ∷ names) m =
    and_then (get_net_delegate client pod netname conf.conf_dir conf.multus_namespace m)
      λ delegate m'.
        and_then (default_delegates client pod conf names (shadowed m m'))
          λ delegates m''. (ok (delegate ∷ delegates), m'')

-- A pod of a system namespace takes the cluster network only.
takes_defaults : Option Pod → NetConf → Bool
unfolding check_system_namespaces
takes_defaults none conf = false
takes_defaults (some pod) conf = not (check_system_namespaces pod.namespace conf.system_namespaces)

networks_of : Client → Option Pod → NetConf → Option ResourceMap → Allocated NetConf
unfolding default_delegates takes_defaults add_delegates
networks_of client pod conf m =
    and_then
      (context_of
        ("GetDefaultNetworks: failed to get clusterNetwork " <> conf.cluster_network
          <> " in namespace " <> conf.multus_namespace)
        (get_net_delegate client pod conf.cluster_network conf.conf_dir conf.multus_namespace m))
      λ delegate m₁.
        and_then
          (default_delegates client pod conf
            (if takes_defaults pod conf then conf.default_networks else []) m₁)
          λ delegates m₂.
            (ok (add_delegates (record delegate { master_plugin = true } ∷ delegates) conf), m₂)

-- The configuration with the delegates of the cluster, and the map that the function returns.
unfoldable pub get_default_networks :
    ClientFactory → Option Pod → NetConf → Option Client → Option ResourceMap → Allocated NetConf
unfolding networks_of
get_default_networks F pod conf client m =
    and_then (get_k8s_client F conf.kubeconfig client, m)
      λ found m'. elim found [
        | some c ↦ networks_of c pod conf m'
        | none ↦ elim conf.delegates [
          | [] ↦ (
            err (errorf "GetDefaultNetworks: must have either Kubernetes config or delegates"),
            m',
          )
          | _ ∷ _ ↦ (ok conf, m')
        ]
      ]
