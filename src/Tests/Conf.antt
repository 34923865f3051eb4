-- ===== src/Tests/Conf.antt =====
-- Configurations of delegates, and what plugins are called with.
use multus_cni.Base.{◌≤◌, ◌<◌, ◌≡◌, ◌⊎◌, refl, true, none, some, List, [], ◌∷◌, string_eq, String}
use multus_cni.Base.Dict.{Dict, lookup}
use multus_cni.Base.Result.{ok, err, errorf}
use multus_cni.Json.{str, obj, Fields, end, field, get, put, Bytes, json}
use multus_cni.Types.{
  v4, CniConf, DelegateNetConf, NetworkSelectionElement, RuntimeConfig, CmdArgs, K8sArgs,
  Capability, ips, bandwidth, port_mappings,
}
use multus_cni.Conf.Inject.{inject_cni_args}
use multus_cni.Conf.Inject.Laws.{NodupKeys, cni_args_of, inject_cni_args-get}
use mathlib.Core.Option.{or_else}
use multus_cni.Conf.Delegate.{Decoders, fresh, load_delegate_net_conf}
use multus_cni.Conf.Delegate.Laws.{
  IsLoaded, Requests, load_delegate_net_conf-IsLoaded, load_delegate_net_conf-Requests,
}
use multus_cni.Conf.Gateway.{check_gateway_config, total, count_v4, count_v6}
use multus_cni.Conf.Gateway.Laws.{check_gateway_config_lem, AllFiltered, unfiltered}
use multus_cni.Conf.Runtime.{Environment, create_args, create_cni_runtime_conf}
use multus_cni.Conf.Runtime.Args.{Extends, create_cni_runtime_conf-Extends}
use multus_cni.Conf.Runtime.Capabilities.{
  sources, first_text, first_list, first_some, create_cni_runtime_conf-wanted,
}
use multus_cni.K8sclient.Annotation.{named_element}

abbrev config : Fields
config =
    field "type" (str "sriov")
      (field "args" (obj (field "cni" (obj (field "vlan" (str "5") end)) end)) end)

abbrev cni_args : Fields
cni_args = field "vlan" (str "7") (field "rate" (str "10") end)

abbrev injected : Fields
injected = field "type" (str "sriov") (
    field "args"
      (obj (field "cni" (obj (field "vlan" (str "7") (field "rate" (str "10") end))) end)) end)

injects : inject_cni_args config cni_args ≡ ok injected
unfolding inject_cni_args string_eq get put
injects = refl

cni_args-NodupKeys : NodupKeys cni_args
unfolding get string_eq
cni_args-NodupKeys = (refl, (refl, tt))

inject_cni_args-get_example :
    ((k : String)
      → get k (cni_args_of injected) ≡ or_else (get k cni_args) (get k (cni_args_of config)))
    × ((k : String) → (k ≡ "args") ⊎ (get k injected ≡ get k config))
inject_cni_args-get_example =
    inject_cni_args-get cni_args cni_args-NodupKeys config injected injects

abbrev conf : CniConf
conf = record { cni_version = "1.0.0"; name = "macvlan-conf"; kind = "macvlan" }

abbrev decoders : Decoders
decoders = record { net_conf = λ _. some conf; net_conf_list = λ _. none }

abbrev bytes : Bytes
bytes = json (obj config)

abbrev element : NetworkSelectionElement
element = record (named_element ("default", "macvlan-1", "net1")) {
  mac_request = "c2:11:22:33:44:55";
  gateway_request = some (v4 "10.1.1.254" ∷ []);
}

abbrev loaded : DelegateNetConf
loaded = record (fresh conf bytes) {
  name = "default/macvlan-1";
  ifname_request = "net1";
  mac_request = "c2:11:22:33:44:55";
  gateway_request = some (v4 "10.1.1.254" ∷ []);
}

loads : load_delegate_net_conf decoders bytes (some element) "" "" ≡ ok loaded
unfolding load_delegate_net_conf string_eq
loads = refl

load_delegate_net_conf-IsLoaded_example : IsLoaded loaded
load_delegate_net_conf-IsLoaded_example =
    load_delegate_net_conf-IsLoaded decoders bytes "" "" (some element) loads

load_delegate_net_conf-Requests_example : Requests "" element loaded
load_delegate_net_conf-Requests_example =
    load_delegate_net_conf-Requests decoders bytes "" "" element loads

abbrev delegates : List DelegateNetConf
delegates = fresh conf bytes ∷ loaded ∷ []

check_gateway_config_lem_example :
    ((1 < total count_v4 delegates) ⊎ (1 < total count_v6 delegates))
      × (check_gateway_config delegates
          ≡ err (errorf "multus does not support ECMP for default-route"))
    ⊎ (total count_v4 delegates ≤ 1)
      × (total count_v6 delegates ≤ 1)
      × (ds' : List DelegateNetConf) × (check_gateway_config delegates ≡ ok ds')
      × AllFiltered delegates ds'
      × (unfiltered (λ d. d.is_filter_v4_gateway) ds' ≤ 1)
      × (unfiltered (λ d. d.is_filter_v6_gateway) ds' ≤ 1)
check_gateway_config_lem_example = check_gateway_config_lem delegates

abbrev environment : Environment
environment = record {
  cni_args = "IgnoreUnknown=true;K8S_POD_NAME=other;VLAN=7";
  cni_device_info_path = λ container. container;
}

abbrev args : CmdArgs
args = record {
  container_id = "abc";
  netns = "/var/run/netns/test";
  if_name = "eth0";
  args = "";
  stdin_data = bytes;
}

abbrev k8s_args : K8sArgs
k8s_args = record {
  pod_name = "pod";
  pod_namespace = "default";
  pod_infra_container_id = "abc";
  pod_uid = "";
}

create_cni_runtime_conf-Extends_example :
    Extends
      (create_args "default" "pod" "abc" "")
      (create_cni_runtime_conf environment args k8s_args "net1" none loaded).0.args
create_cni_runtime_conf-Extends_example =
    create_cni_runtime_conf-Extends environment args k8s_args "net1" none loaded

abbrev given : RuntimeConfig
given = record {
  port_maps = none;
  bandwidth = none;
  ips = some ("10.0.0.1" ∷ []);
  mac = "c2:00:00:00:00:01";
  infiniband_guid = "";
  device_id = "";
  cni_device_info_file = "";
}

abbrev master : DelegateNetConf
master = record (fresh conf bytes) { master_plugin = true }

abbrev mastered : Dict Capability
mastered =
    (create_cni_runtime_conf environment args k8s_args "eth0" (some given) master).0.capability_args

abbrev requested : Dict Capability
requested =
    (create_cni_runtime_conf environment args k8s_args "net1" (some given) loaded).0.capability_args

create_cni_runtime_conf-wanted_example :
    (lookup "mac" requested
      ≡ first_text (sources loaded.master_plugin loaded.mac_request given.mac))
    × (lookup "infinibandGUID" requested
        ≡ first_text
            (sources loaded.master_plugin loaded.infiniband_guid_request given.infiniband_guid))
    × (lookup "deviceID" requested
        ≡ first_text (sources loaded.master_plugin loaded.device_id given.device_id))
    × (lookup "ips" requested
        ≡ first_list ips (sources loaded.master_plugin loaded.ip_request given.ips))
    × (lookup "bandwidth" requested
        ≡ first_some bandwidth
            (sources loaded.master_plugin loaded.bandwidth_request given.bandwidth))
    × (lookup "portMappings" requested
        ≡ first_list port_mappings
            (sources loaded.master_plugin loaded.port_mappings_request given.port_maps))
create_cni_runtime_conf-wanted_example =
    create_cni_runtime_conf-wanted environment args k8s_args "net1" (some given) loaded
