-- ===== src/Tests/Hosts.antt =====
-- A host whose plugins add and delete, and a session with two delegates.
use multus_cni.Base.{false, true, none, some, [], ◌∷◌}
use multus_cni.Base.Result.{ok, err, errorf}
use multus_cni.Json.{str, Fields, end, field, json, obj, malformed}
use multus_cni.Os.{Os}
use multus_cni.Types.{CniConf, DelegateNetConf, NetConf, K8sArgs, CmdArgs}
use multus_cni.Conf.Delegate.{fresh}
use multus_cni.Conf.Netconf.{default_net_conf}
use multus_cni.Multus.Attach.{Session}
use multus_cni.Multus.Calls.{Plugins, done, refused}
use multus_cni.Multus.Host.{Host}
use multus_cni.Multus.World.{World}

abbrev pub plugin : Fields
plugin = field "type" (str "macvlan") end

abbrev pub conf : CniConf
conf = record { cni_version = "1.0.0"; name = "macvlan-conf"; kind = "macvlan" }

abbrev pub delegate : DelegateNetConf
delegate = fresh conf (json (obj plugin))

abbrev pub master : DelegateNetConf
master = record delegate { master_plugin = true }

-- A deletion fails, and an addition once another one was made.
abbrev pub plugins : Plugins
plugins = record {
  parse_error = λ _ _. none;
  add_reply = λ trace _. elim trace [ [] ↦ done plugin | _ ∷ _ ↦ refused (errorf "busy") ];
  reply = λ _ _. some (errorf "busy");
  get_ns = λ _ _. none;
  link_by_name = λ _ _ _. some (errorf "Link not found");
  result_of = λ _. none;
  parsers = record {
    json_networks = λ _. none;
    is_mac = λ _. false;
    is_cidr = λ _. false;
    is_ip = λ _. false;
  };
  quote = λ s. s;
}

abbrev pub k8s_args : K8sArgs
k8s_args = record {
  pod_name = "pod";
  pod_namespace = "default";
  pod_infra_container_id = "abc";
  pod_uid = "7";
}

abbrev pub args : CmdArgs
args = record {
  container_id = "abc";
  netns = "/var/run/netns/test";
  if_name = "eth0";
  args = "";
  stdin_data = json (obj plugin);
}

abbrev pub host : Host
host = record {
  plugins = plugins;
  environment = record { cni_args = ""; cni_device_info_path = λ name. name };
  netlink = record {
    open_error = λ _. none;
    links = "eth0" ∷ [];
    del_error = λ _. none;
    add_error = λ _. none;
  };
  codec = record {
    mkdir_fault = λ _. none;
    encode = λ _. ok (malformed "saved");
    decode = λ _. some (delegate ∷ delegate ∷ []);
    quote = λ s. s;
  };
  reader = record {
    decoders = record { net_conf = λ _. some conf; net_conf_list = λ _. none };
    fill = λ conf _. some (record conf { raw_delegates = plugin ∷ [] });
    check_prev_result = λ _ _. ok tt;
  };
  factory = record {
    from_kubeconfig = λ _. err (errorf "no kubeconfig");
    in_cluster = false;
    in_cluster_client = err (errorf "no cluster");
  };
  files = record { abs = λ path. ok path; stat = λ _. none; polls = λ _. [] };
  pod_reads = λ _ _. record { informer = false; attempts = []; live = err (errorf "no pod") };
  load_args = λ _. ok k8s_args;
  load_device_info = λ _ _. none;
  network_statuses = λ _ _ _ _. ok [];
  files_after = λ _ os. os;
  encode_list = λ _. ok (json (obj plugin));
}

abbrev pub os : Os
os = record {
  files = λ _. some (malformed "saved");
  read_fault = λ _. none;
  write_fault = λ _. none;
  join = λ _. "/var/lib/cni/multus/abc";
}

abbrev pub start : World
start = record { calls = []; os = os; routes = λ _. [] }

abbrev pub net_conf : NetConf
net_conf = record default_net_conf {
  delegates = master ∷ delegate ∷ [];
  retry_delete_on_error = true;
}

abbrev pub session : Session
session = record {
  args = args;
  k8s_args = k8s_args;
  conf = net_conf;
  client = none;
  pod_client = none;
  pod = none;
}
