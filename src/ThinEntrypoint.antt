-- ===== src/ThinEntrypoint.antt =====
-- cmd/thin_entrypoint/main.go: the options, and what the entry point takes from libraries.
pub mod Files
pub mod Template
pub mod Config
pub mod Kubeconfig
pub mod Watch
use multus_cni.Base.{String, Bool, Option, List}
use multus_cni.Base.Result.{Result}
use multus_cni.Json.{Fields}
use multus_cni.Disk.{Disk}

pub record Options : Type 0 where
  pub cni_bin_dir : String
  pub cni_conf_dir : String
  pub cni_version : String
  pub multus_conf_file : String
  pub multus_bin_file : String
  pub multus_cni_conf_dir : String
  pub skip_multus_binary_copy : Bool
  pub multus_kube_config_file_host : String
  pub multus_master_cni_file_name : String
  pub namespace_isolation : Bool
  pub global_namespaces : String
  pub multus_autoconfig_dir : String
  pub multus_log_to_stderr : Bool
  pub multus_log_level : String
  pub multus_log_file : String
  pub override_network_name : Bool
  pub cleanup_config_on_exit : Bool
  pub rename_conf_file : Bool
  pub readiness_indicator_file : String
  pub additional_bin_dir : String
  pub force_cni_version : Bool
  pub skip_tls_verify : Bool
  pub skip_multus_conf_watch : Bool

-- filepath.Join of two parts and filepath.Base, libcni.ConfFiles with the two extensions,
-- strings.ToLower, sha256, base64, os.Getenv, json.Unmarshal and json.Marshal on texts, and "%q".
pub record Libraries : Type 0 where
  pub join : String → String → String
  pub base : String → String
  pub conf_files : Disk → String → Result (List String)
  pub lower : String → String
  pub sha256 : String → String
  pub base64 : String → String
  pub getenv : String → String
  pub parse : String → Result Fields
  pub print : Fields → String
  pub quote : String → String
