-- ===== src/Tests/Multus.antt =====
-- Delegates of a container whose deletion fails once.
use multus_cni.Base.{ℕ, ◌≡◌, ◌≢◌, refl, true, false, none, some, List, [], ◌∷◌, arith, string_eq}
use multus_cni.Base.Result.{panic, errorf}
use multus_cni.Json.{str, end, field, Bytes, json, obj}
use multus_cni.Types.{CniConf, DelegateNetConf, CmdArgs, K8sArgs}
use multus_cni.Conf.Delegate.{fresh}
use multus_cni.Conf.Netconf.{default_net_conf}
use multus_cni.Conf.Runtime.{Environment}
use multus_cni.Multus.Calls.{Plugins, done}
use multus_cni.Multus.Commands.{get_ifname, del_plugins}
use multus_cni.Multus.Commands.Interfaces.{get_ifname-distinct}
use multus_cni.Multus.Commands.Teardown.{take, torn_all, del_plugins-torn_all}

abbrev bytes : Bytes
bytes = json (obj (field "type" (str "macvlan") end))

abbrev conf : CniConf
conf = record { cni_version = "1.0.0"; name = "macvlan-conf"; kind = "macvlan" }

abbrev first : DelegateNetConf
first = record (fresh conf bytes) { master_plugin = true }

abbrev second : DelegateNetConf
second = fresh conf bytes

abbrev delegates : List DelegateNetConf
delegates = first ∷ second ∷ second ∷ []

-- The first call of a plugin fails.
abbrev plugins : Plugins
plugins = record {
  parse_error = λ _ _. none;
  add_reply = λ _ _. done end;
  reply = λ trace _. elim trace [ [] ↦ some (errorf "busy") | _ ∷ _ ↦ none ];
  get_ns = λ _ _. none;
  link_by_name = λ _ _ _. some (errorf "Link not found");
  result_of = λ _. none;
  parsers = record {
    json_networks = λ _. none;
    is_mac = λ _. false;
    is_cidr = λ _. false;
    is_ip = λ _. false;
  };
  quote = λ s. s;
}

abbrev environment : Environment
environment = record { cni_args = ""; cni_device_info_path = λ name. name }

abbrev args : CmdArgs
args = record {
  container_id = "abc";
  netns = "/var/run/netns/test";
  if_name = "eth0";
  args = "";
  stdin_data = bytes;
}

abbrev k8s_args : K8sArgs
k8s_args = record {
  pod_name = "pod";
  pod_namespace = "default";
  pod_infra_container_id = "abc";
  pod_uid = "";
}

del_plugins-torn_all_example :
    ((del_plugins environment plugins args k8s_args default_net_conf none [] delegates 2).1
      ≡ torn_all environment plugins args k8s_args default_net_conf none (take 2 delegates) 0 [])
    × ((del_plugins environment plugins args k8s_args default_net_conf none [] delegates 2).0
        ≢ panic)
del_plugins-torn_all_example =
    del_plugins-torn_all environment plugins args k8s_args default_net_conf none delegates 2 []
      (refl, (refl, (refl, tt))) (omega arith)

one_ne_two : ◌≢◌ {A = ℕ} 1 2
one_ne_two h = omega (arith, h)

get_ifname-distinct_example : get_ifname second "eth0" 1 ≢ get_ifname second "eth0" 2
get_ifname-distinct_example =
    get_ifname-distinct second second "eth0" 1 2 (refl, refl) (refl, refl) one_ne_two
