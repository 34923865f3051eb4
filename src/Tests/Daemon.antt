-- ===== src/Tests/Daemon.antt =====
-- A daemon whose configuration of Multus is a file of the user's.
use multus_cni.Base.{ℕ, ◌≡◌, refl, true, none, some, [], string_eq}
use multus_cni.Base.Result.{ok}
use multus_cni.Json.{Bytes, malformed}
use multus_cni.Os.{Os, read_file, write_file}
use multus_cni.Tests.Delegates.{client}
use multus_cni.Logging.{init}
use multus_cni.Server.Config.Generator.{MultusConf, daemon_defaults, parse_multus_config}
use multus_cni.Server.Start.{
  ControllerNetConf, load_daemon_net_conf, new_cni_server, filesystem_pre_requirements,
  get_listener,
}
use multus_cni.MultusDaemon.{
  Programs, returns, awaited, cni_server_config, copy_user_provided_config, start_multus_daemon,
  daemon_main,
}

abbrev text : Bytes
text = malformed "text"

abbrev os : Os
os = record {
  files = λ _. some text;
  read_fault = λ _. none;
  write_fault = λ _. none;
  join = λ _. "";
}

abbrev controller : ControllerNetConf
controller = record {
  chroot_dir = "";
  log_file = "";
  log_level = "";
  log_to_stderr = true;
  per_node_certificate = none;
  metrics_port = none;
  socket_dir = "/run/multus/";
}

abbrev conf : MultusConf
conf = record daemon_defaults {
  multus_config_file = "/tmp/multus.conf";
  name = "multus-cni-network";
}

abbrev programs : Programs ℕ
programs = record {
  abs = λ path. ok path;
  base = λ path. path;
  fill = λ _ _. some conf;
  read_dir = λ _. ok [];
  semver = record { make = λ _. ok 1; v040 = 1; gte = λ _ _. true };
  paths = record { abs = λ path. ok path; dir = λ path. path; watch = λ _ _. none };
  files = record { abs = λ path. ok path; stat = λ _. none; polls = λ _. [] };
  server = record {
    fill = λ _ _. ok controller;
    lower = λ s. s;
    node_name = "";
    parse_duration = λ _. ok 0;
    per_node_client = λ _ _ _ _. ok client;
    in_cluster_client = ok client;
  };
  run_as_root = ok tt;
  system = record {
    remove_all = λ _. none;
    mkdir_all = λ _. none;
    listen = λ _. none;
    chmod = λ _. none;
  };
  socket_path = λ dir. dir;
  ready = λ _. ok tt;
}

-- The daemon ends at once, with nothing to wait for.
ends : daemon_main programs "/daemon.json" os init ≡ ok returns
unfolding daemon_main cni_server_config parse_multus_config awaited copy_user_provided_config
    start_multus_daemon new_cni_server filesystem_pre_requirements get_listener read_file write_file
    load_daemon_net_conf string_eq
ends = refl
