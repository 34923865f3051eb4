-- ===== src/Tests/Delegates.antt =====
-- Delegates of a pod on a client whose every answer is fixed.
use mathlib.Core.Option.{some-injective}
use multus_cni.Base.{
  String, ◌≡◌, ap, sym, ◌⊎◌, refl, true, false, none, some, List, [], ◌∷◌, length, All, contains,
  ne_by_test, string_eq, nat_eq,
}
use multus_cni.Base.Dict.{lookup, insert}
use multus_cni.Base.Result.{ok, err, errorf}
use multus_cni.Json.{str, obj, Fields, end, field, get, put, json, marshal, written_fields}
use multus_cni.Types.{CniConf, DelegateNetConf, NetworkSelectionElement, NetConf, ResourceMap}
use multus_cni.Conf.Delegate.{Decoders, fresh, load_delegate_net_conf}
use multus_cni.Conf.Inject.{put_device_id, delegate_add_device_id}
use multus_cni.Conf.Netconf.{
  ConfReader, default_net_conf, finish_net_conf, load_raw_delegates, mark_master, isolate,
  load_net_conf,
}
use multus_cni.Conf.Netconf.Laws.{IsReady, load_net_conf-IsReady}
use multus_cni.K8sclient.Annotation.{Parsers, named_element}
use multus_cni.K8sclient.Client.{Pod, NetAttachDef, Client}
use multus_cni.K8sclient.Device.{
  resource_name_annot, get_kubernetes_delegate, take_device, fetch_resources, allocate,
  load_network,
}
use multus_cni.K8sclient.Device.Laws.{remaining, NonEmpty, Splits}
use multus_cni.K8sclient.Delegates.{
  check_isolation, is_valid_namespace_reference, get_network_delegates,
}
use multus_cni.K8sclient.Delegates.Isolation.{get_network_delegates-isolated}
use multus_cni.K8sclient.Delegates.Devices.{devices_of, get_network_delegates-devices}

abbrev plugin : Fields
plugin = field "type" (str "sriov") end

abbrev decoders : Decoders
decoders = record {
  net_conf = λ _. some (record { cni_version = "1.0.0"; name = "sriov-conf"; kind = "sriov" });
  net_conf_list = λ _. none;
}

abbrev parsers : Parsers
parsers = record {
  json_networks = λ _. none;
  is_mac = λ _. false;
  is_cidr = λ _. false;
  is_ip = λ _. false;
}

abbrev sriov : NetAttachDef
sriov = record { annotations = (resource_name_annot, "intel.com/sriov") ∷ []; config = "" }

abbrev pub client : Client
client = record {
  get_net_attach_def = λ _ _. ok sriov;
  get_pod = λ _ _. err (errorf "no pod");
  update_status = λ _ _. ok tt;
  resource_client = err (errorf "no kubelet");
  cni_config = λ _ _. ok (json (obj plugin));
  cni_config_from_file = λ _ _. err (errorf "no such file");
  stat_is_dir = λ _. ok false;
  conf_files = λ _. ok [];
  conf_list_from_file = λ _. err (errorf "no such file");
  conf_from_file = λ _. err (errorf "no such file");
  decoders = decoders;
  parsers = parsers;
}

abbrev pod : Pod
pod = record { name = "pod"; namespace = "web"; uid = "1"; annotations = [] }

abbrev conf : NetConf
conf = record default_net_conf { namespace_isolation = true }

abbrev networks : List NetworkSelectionElement
networks =
    named_element ("web", "sriov-1", "net1") ∷ named_element ("default", "sriov-2", "net2") ∷ []

abbrev resources : ResourceMap
resources =
    ("intel.com/sriov", record { index = 0; device_ids = "0000:03:02.1" ∷ "0000:03:02.3" ∷ [] })
    ∷ []

abbrev configured : CniConf
configured = record { cni_version = "1.0.0"; name = "sriov-conf"; kind = "sriov" }

-- The delegate of a network with the device that it is given.
abbrev with_device : String → String → String → DelegateNetConf
with_device name ifname device_id = record (fresh configured (json (obj plugin))) {
  name = name;
  ifname_request = ifname;
  device_id = device_id;
  resource_name = "intel.com/sriov";
  bytes = json (obj (written_fields (put_device_id device_id plugin)));
}

abbrev loaded : List DelegateNetConf
loaded =
    with_device "web/sriov-1" "net1" "0000:03:02.1"
    ∷ with_device "default/sriov-2" "net2" "0000:03:02.3"
    ∷ []

abbrev taken : ResourceMap
taken =
    ("intel.com/sriov", record { index = 2; device_ids = "0000:03:02.1" ∷ "0000:03:02.3" ∷ [] })
    ∷ []

loads : get_network_delegates client pod conf networks (some resources) ≡ (ok loaded, some taken)
unfolding get_network_delegates check_isolation is_valid_namespace_reference get_kubernetes_delegate
    allocate take_device fetch_resources load_network load_delegate_net_conf delegate_add_device_id
    lookup insert string_eq get put put_device_id
loads = refl

get_network_delegates-isolated_example :
    All
      (λ net.
        (pod.namespace ≡ net.namespace)
        ⊎ (contains conf.non_isolated_namespaces net.namespace ≡ true))
      networks
    × (length loaded ≡ length networks)
get_network_delegates-isolated_example =
    get_network_delegates-isolated client pod conf refl networks (some resources) loads

abbrev resource : String
resource = "intel.com/sriov"

remaining-NonEmpty : NonEmpty (remaining resource resources)
unfolding lookup string_eq
remaining-NonEmpty = (ne_by_test "0000:03:02.1" "" refl, (ne_by_test "0000:03:02.3" "" refl, tt))

get_network_delegates-devices_example :
    Splits resource resources (devices_of resource loaded) (some taken)
get_network_delegates-devices_example =
    get_network_delegates-devices client pod conf resource (ne_by_test "intel.com/sriov" "" refl)
      networks resources remaining-NonEmpty loads

-- A configuration of Multus with one delegate of its own.
abbrev reader : ConfReader
reader = record {
  decoders = decoders;
  fill = λ conf _. some (record conf { raw_delegates = plugin ∷ [] });
  check_prev_result = λ _ _. ok tt;
}

abbrev ready : NetConf
ready = record default_net_conf {
  delegates = record (fresh configured (json (obj plugin))) { master_plugin = true } ∷ [];
}

reads : load_net_conf reader (json (obj plugin)) ≡ ok ready
unfolding load_net_conf finish_net_conf load_raw_delegates mark_master isolate
    load_delegate_net_conf marshal string_eq written_fields
reads = refl

skips : (c : NetConf) → reader.fill default_net_conf (json (obj plugin)) ≡ some c → c.delegates ≡ []
skips c e = ap (λ c'. c'.delegates) (sym (some-injective _ _ e))

load_net_conf-IsReady_example : IsReady ready
load_net_conf-IsReady_example = load_net_conf-IsReady reader (json (obj plugin)) skips reads
