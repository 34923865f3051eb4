-- ===== src/Server/Start.antt =====
-- pkg/server: the configuration of the daemon, and what its server is made with.
use multus_cni.Base.{
  ℕ, String, ◌<>◌, Bool, true, false, ◌&&◌, Option, none, some, ◌==◌, ◌!=◌, string_eq,
  if◌then◌else◌,
}
use multus_cni.Base.Result.{Result, ok, err, panic, Error, Kind, errorf, wrap, context, ◌>>=◌, ◌>>◌}
use multus_cni.Json.{Bytes}
use multus_cni.K8sclient.Client.{Client}
use multus_cni.Logging.{Logging, set_log_stderr, set_log_file, set_log_level}

pub record PerNodeCertificate : Type 0 where
  pub enabled : Bool
  pub bootstrap_kubeconfig : String
  pub cert_dir : String
  pub cert_duration : String

pub record ControllerNetConf : Type 0 where
  pub chroot_dir : String
  pub log_file : String
  pub log_level : String
  pub log_to_stderr : Bool
  pub per_node_certificate : Option PerNodeCertificate
  pub metrics_port : Option ℕ
  pub socket_dir : String

abbrev pub default_daemon_config_file : String
default_daemon_config_file = "/etc/cni/net.d/multus.d/daemon-config.json"

abbrev defaults : ControllerNetConf
defaults = record {
  chroot_dir = "";
  log_file = "";
  log_level = "";
  log_to_stderr = false;
  per_node_certificate = none;
  metrics_port = none;
  socket_dir = "/run/multus/";
}

-- json.Unmarshal into a configuration that has values already, strings.ToLower, MULTUS_NODE_NAME,
-- time.ParseDuration as nanoseconds, and the two clients.
pub record Libraries : Type 0 where
  pub fill : ControllerNetConf → Bytes → Result ControllerNetConf
  pub lower : String → String
  pub node_name : String
  pub parse_duration : String → Result ℕ
  pub per_node_client : String → String → ℕ → String → Result Client
  pub in_cluster_client : Result Client

-- os.RemoveAll, os.MkdirAll, net.Listen and os.Chmod, as the error that each answers with.
pub record System : Type 0 where
  pub remove_all : String → Option Error
  pub mkdir_all : String → Option Error
  pub listen : String → Option Error
  pub chmod : String → Option Error

of_fault : String → Option Error → Result (Unit {0})
of_fault what none = ok tt
of_fault what (some e) = err (wrap what e)

-- A directory that is not there counts as removed.
removed : String → Option Error → Result (Unit {0})
removed what none = ok tt
removed what (some e) = elim e.kind [ Kind.not_exist ↦ ok tt | _ ↦ err (wrap what e) ]

module _ (Y : System) where
  unfoldable pub filesystem_pre_requirements : String → Result (Unit {0})
  unfolding removed of_fault
  filesystem_pre_requirements dir =
      removed ("failed to remove old pod info socket directory " <> dir <> ": ") (Y.remove_all dir)
      >> of_fault ("failed to create pod info socket directory " <> dir <> ": ") (Y.mkdir_all dir)

  unfoldable pub get_listener : String → Result (Unit {0})
  unfolding of_fault
  get_listener path =
      of_fault "failed to listen on pod info socket: " (Y.listen path)
      >> of_fault "failed to listen on pod info socket: " (Y.chmod path)

-- How the server runs plugins: in a directory of its own where one is given.
pub record Started : Type 0 where
  pub client : Client
  pub chroot : Option String
  pub socket_dir : String
  pub config : Bytes
  pub ignore_readiness : Bool

unfoldable pub is_per_node_cert_enabled : Option PerNodeCertificate → Result Bool
is_per_node_cert_enabled none = ok false
is_per_node_cert_enabled (some c) =
    if c.enabled
    then (if c.bootstrap_kubeconfig != "" && c.cert_dir != ""
        then ok true
        else err (errorf "failed to configure PerNodeCertificate"))
    else ok false

module _ (L : Libraries) where
  logging_of : ControllerNetConf → Logging → Logging
  unfolding set_log_stderr set_log_file set_log_level
  logging_of c s =
      let s1 = set_log_stderr c.log_to_stderr s in
      let s2 =
        if c.log_file != default_daemon_config_file then set_log_file c.log_file s1 else s1 in
      if c.log_level != "" then set_log_level L.lower c.log_level s2 else s2

  filled : Result ControllerNetConf → Logging → Result ControllerNetConf × Logging
  unfolding logging_of
  filled (ok c) s = (ok c, logging_of c s)
  filled (err e) s = (err (wrap "failed to unmarshall the daemon configuration: " e), s)
  filled panic s = (panic, s)

  unfoldable pub load_daemon_net_conf : Bytes → Logging → Result ControllerNetConf × Logging
  unfolding filled
  load_daemon_net_conf config s = filled (L.fill defaults config) s

  -- 600000000000 nanoseconds are the ten minutes of DefaultCertDuration.
  duration_of : PerNodeCertificate → Result ℕ
  duration_of c =
      if c.cert_duration != ""
      then context "failed to parse certDuration: " (L.parse_duration c.cert_duration)
      else ok 600000000000

  per_node : PerNodeCertificate → Result Client
  unfolding duration_of
  per_node c =
      if L.node_name == ""
      then err (
          errorf
            "error getting node name for perNodeCertificate, please check manifest to have MULTUS_NODE_NAME")
      else (duration_of c >>= λ duration.
          context "error getting perNodeClient: "
            (L.per_node_client L.node_name c.bootstrap_kubeconfig duration c.cert_dir))

  in_cluster : Result Client
  in_cluster = context "error getting k8s client: " L.in_cluster_client

  client_of : Option PerNodeCertificate → Result Client
  unfolding is_per_node_cert_enabled per_node in_cluster
  client_of none = in_cluster
  client_of (some c) =
      is_per_node_cert_enabled (some c) >>= λ enabled. if enabled then per_node c else in_cluster

  unfoldable pub new_cni_server : ControllerNetConf → Bytes → Bool → Result Started
  unfolding client_of
  new_cni_server c config ignore = client_of c.per_node_certificate >>= λ client. ok (record {
    client = client;
    chroot = if c.chroot_dir != "" then some c.chroot_dir else none;
    socket_dir = c.socket_dir;
    config = config;
    ignore_readiness = ignore;
  })
