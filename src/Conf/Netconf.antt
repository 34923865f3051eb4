-- ===== src/Conf/Netconf.antt =====
-- GetDefaultNetConf, LoadNetConf and AddDelegates. What LoadNetConf does to the logger is left out.
pub mod Laws
use multus_cni.Base.{
  String, Bool, true, false, ◌&&◌, Option, none, some, List, [], ◌∷◌, ◌++◌, map, ◌==◌, ◌!=◌,
  string_eq, if◌then◌else◌,
}
use multus_cni.Base.Result.{Result, ok, err, panic, errorf, context, or_err, ◌>>=◌}
use multus_cni.Json.{Bytes, Fields, marshal}
use multus_cni.Text.{split, trim_space}
use multus_cni.Types.{NetConf, DelegateNetConf}
use multus_cni.Conf.Delegate.{Decoders, load_delegate_net_conf}

abbrev pub default_net_conf : NetConf
default_net_conf = record {
  cni_version = "";
  conf_dir = "/etc/cni/multus/net.d";
  cni_dir = "/var/lib/cni/multus";
  bin_dir = "/opt/cni/bin";
  raw_prev_result = none;
  raw_delegates = [];
  delegates = [];
  cluster_network = "";
  default_networks = [];
  kubeconfig = "";
  runtime_config = none;
  readiness_indicator_file = "";
  namespace_isolation = false;
  raw_non_isolated_namespaces = "";
  non_isolated_namespaces = "default" ∷ [];
  system_namespaces = "kube-system" ∷ [];
  multus_namespace = "kube-system";
  retry_delete_on_error = false;
}

unfoldable pub add_delegates : List DelegateNetConf → NetConf → NetConf
add_delegates new conf = record conf { delegates = conf.delegates ++ new }

-- `n.Delegates[0].MasterPlugin = true`, which panics where there is no delegate.
unfoldable pub mark_master : List DelegateNetConf → Result (List DelegateNetConf)
mark_master [] = panic
mark_master (d ∷ delegates) = ok (record d { master_plugin = true } ∷ delegates)

-- `globalNamespaces`, a comma-separated list.
unfoldable pub isolate : NetConf → NetConf
isolate conf =
    if conf.raw_non_isolated_namespaces != ""
    then record conf {
      non_isolated_namespaces = map trim_space (split b',' conf.raw_non_isolated_namespaces);
    }
    else conf

-- json.Unmarshal over a configuration that holds defaults, and the conversion of a previous result
-- to the current version, which is checked here and not read again.
pub record ConfReader : Type 0 where
  pub decoders : Decoders
  pub fill : NetConf → Bytes → Option NetConf
  pub check_prev_result : String → Fields → Result (Unit {0})

module _ (R : ConfReader) where
  unfoldable pub load_raw_delegates : List Fields → Result (List DelegateNetConf)
  load_raw_delegates [] = ok []
  load_raw_delegates (raw ∷ raws) = do
    bytes ← marshal raw
    d ←
        context "LoadNetConf: failed to load delegate config: "
          (load_delegate_net_conf R.decoders bytes none "" "")
    rest ← load_raw_delegates raws
    ok (d ∷ rest)

  prev_result : String → Option Fields → Result (Unit {0})
  prev_result version none = ok tt
  prev_result version (some raw) =
      context "LoadNetConf: could not parse prevResult: " (R.check_prev_result version raw)

  check_given : NetConf → Result (Unit {0})
  check_given conf = elim conf.raw_delegates [
    | [] ↦
        if conf.cluster_network == ""
        then err (errorf "LoadNetConf: at least one delegate/clusterNetwork must be specified")
        else ok tt
    | _ ∷ _ ↦ ok tt
  ]

  -- The delegates of the configuration itself, if it names no cluster network.
  set_delegates : NetConf → Result NetConf
  unfolding mark_master
  set_delegates conf = do
    loaded ← load_raw_delegates conf.raw_delegates
    delegates ← mark_master (conf.delegates ++ loaded)
    ok (record conf { raw_delegates = []; delegates = delegates })

  unfoldable pub finish_net_conf : NetConf → Result NetConf
  unfolding set_delegates
  finish_net_conf conf = if conf.cluster_network == "" then set_delegates conf else ok conf

  unfoldable pub load_net_conf : Bytes → Result NetConf
  unfolding prev_result check_given isolate finish_net_conf
  load_net_conf bytes = do
    conf ← or_err "LoadNetConf: failed to load netconf" (R.fill default_net_conf bytes)
    _ ← prev_result conf.cni_version conf.raw_prev_result
    _ ← check_given conf
    finish_net_conf (isolate (record conf { raw_prev_result = none }))
