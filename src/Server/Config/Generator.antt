-- ===== src/Server/Config/Generator.antt =====
-- pkg/server/config/generator.go: the configuration of Multus, its capabilities and its versions.
pub mod Capabilities
pub mod Versions
use Prim.Native.Char.{code}
use Prim.Native.String.{[], ◌∷◌}
use mathlib.Core.Option
use multus_cni.Base.{
  ℕ, zero, suc, ◌+◌, String, ◌<>◌, Bool, true, false, not, ◌&&◌, ◌||◌, Option, none, some, List, [],
  ◌∷◌, ◌++◌, ◌==◌, ◌!=◌, nat_eq, string_eq, ltb, if◌then◌else◌,
}
use multus_cni.Base.Dict.{Dict, insert}
use multus_cni.Base.Result.{
  Result, ok, err, panic, Error, errorf, context, or_err, or_panic, ◌>>=◌, ◌>>◌,
}
use multus_cni.Json.{
  Value, bool, str, obj, Fields, end, field, get, as_string, as_slice, as_map, Bytes, json,
}
use multus_cni.Os.{Os, read_file}
use multus_cni.Text.{starts_with}

-- `capabilities` is nil without `some`, and the options of the log are kept as JSON.
pub record MultusConf : Type 0 where
  pub bin_dir : String
  pub capabilities : Option (Dict Bool)
  pub cni_version : String
  pub log_file : String
  pub log_level : String
  pub log_to_stderr : Bool
  pub log_options : Option Fields
  pub name : String
  pub cluster_network : String
  pub namespace_isolation : Bool
  pub raw_non_isolated_namespaces : String
  pub readiness_indicator_file : String
  pub type : String
  pub cni_dir : String
  pub cni_config_dir : String
  pub daemon_socket_dir : String
  pub multus_config_file : String
  pub multus_master_cni : String
  pub multus_autoconfig_dir : String
  pub force_cni_version : Bool
  pub override_network_name : Bool

abbrev pub multus_default_network_name : String
multus_default_network_name = "multus-cni-network"

abbrev pub daemon_defaults : MultusConf
daemon_defaults = record {
  bin_dir = "";
  capabilities = some [];
  cni_version = "";
  log_file = "";
  log_level = "";
  log_to_stderr = false;
  log_options = none;
  name = "";
  cluster_network = "";
  namespace_isolation = false;
  raw_non_isolated_namespaces = "";
  readiness_indicator_file = "";
  type = "multus-shim";
  cni_dir = "";
  cni_config_dir = "/etc/cni/net.d";
  daemon_socket_dir = "";
  multus_config_file = "auto";
  multus_master_cni = "";
  multus_autoconfig_dir = "";
  force_cni_version = false;
  override_network_name = false;
}

-- `fill` is json.Unmarshal into a configuration that has values already.
unfoldable pub parse_multus_config :
    (MultusConf → Bytes → Option MultusConf) → Os → String → Result MultusConf
parse_multus_config fill os path = do
  bytes ←
      context "ParseMultusConfig failed to read the config file's contents: " (read_file os path)
  conf ← or_err "failed to unmarshall the daemon configuration" (fill daemon_defaults bytes)
  ok (record conf { name = multus_default_network_name })

-- Package semver: `make`, the version "0.4.0", and whether a version is at least another.
pub record Semver (V : Type 0) : Type 0 where
  pub make : String → Result V
  pub v040 : V
  pub gte : V → V → Bool

module _ {V : Type 0} (S : Semver V) where
  check_delegate : String → String → V → Result (Unit {0})
  check_delegate top delegate v =
      if S.gte v S.v040
      then ok tt
      else err (
          errorf
            ("delegate cni version is " <> delegate <> " while top level cni version is " <> top))

  abbrev version_in : Option Value → Option String
  version_in none = none
  version_in (some v) = as_string v

  abbrev version_of : Option Fields → Option String
  version_of none = none
  version_of (some fields) = version_in (get "cniVersion" fields)

  delegate_checked : String → Value → Result (Unit {0})
  unfolding check_delegate
  delegate_checked top delegate = do
    version ← or_err "couldn't get cni version of delegate" (version_of (as_map delegate))
    v ← S.make version
    check_delegate top version v

  top_checked : String → Value → Result V → Result (Unit {0})
  unfolding delegate_checked
  top_checked top delegate (ok v) = if S.gte v S.v040 then delegate_checked top delegate else ok tt
  top_checked top delegate (err _) = err (errorf "couldn't get top level cni version")
  top_checked top delegate panic = panic

  unfoldable pub check_version_compatibility : MultusConf → Value → Result (Unit {0})
  unfolding top_checked
  check_version_compatibility conf delegate =
      top_checked conf.cni_version delegate (S.make conf.cni_version)

-- json.Marshal of the configuration: a member that is `omitempty` is left out where it is empty.
abbrev pub text_value : String → Option Value
text_value s = if s == "" then none else some (str s)

abbrev pub flag_value : Bool → Option Value
flag_value b = if b then some (bool true) else none

abbrev pub flags : Dict Bool → Fields
flags [] = end
flags ((k, b) ∷ d) = field k (bool b) (flags d)

abbrev capabilities_value : Option (Dict Bool) → Option Value
capabilities_value (some (c ∷ cs)) = some (obj (flags (c ∷ cs)))
capabilities_value _ = none

abbrev pub members : List (String × Option Value) → Fields
members [] = end
members ((k, none) ∷ more) = members more
members ((k, some v) ∷ more) = field k v (members more)

unfoldable pub marshal_conf : MultusConf → Bytes
marshal_conf c = json (
    obj (
      members (
        ("binDir", text_value c.bin_dir)
        ∷ ("capabilities", capabilities_value c.capabilities)
        ∷ ("cniVersion", some (str c.cni_version))
        ∷ ("logFile", text_value c.log_file)
        ∷ ("logLevel", text_value c.log_level)
        ∷ ("logToStderr", flag_value c.log_to_stderr)
        ∷ ("logOptions", Option.map obj c.log_options)
        ∷ ("name", some (str c.name))
        ∷ ("clusterNetwork", text_value c.cluster_network)
        ∷ ("namespaceIsolation", flag_value c.namespace_isolation)
        ∷ ("globalNamespaces", text_value c.raw_non_isolated_namespaces)
        ∷ ("readinessindicatorfile", text_value c.readiness_indicator_file)
        ∷ ("type", some (str c.type))
        ∷ ("cniDir", text_value c.cni_dir)
        ∷ ("cniConfigDir", text_value c.cni_config_dir)
        ∷ ("daemonSocketDir", text_value c.daemon_socket_dir)
        ∷ ("multusConfigFile", text_value c.multus_config_file)
        ∷ ("multusMasterCNI", text_value c.multus_master_cni)
        ∷ ("multusAutoconfigDir", text_value c.multus_autoconfig_dir)
        ∷ ("forceCNIVersion", flag_value c.force_cni_version)
        ∷ ("overrideNetworkName", flag_value c.override_network_name)
        ∷ [])))

-- What Generate clears before it marshals.
unfoldable pub flushed : MultusConf → MultusConf
flushed conf = record conf {
  cni_config_dir = "";
  multus_config_file = "";
  multus_autoconfig_dir = "";
  multus_master_cni = "";
  force_cni_version = false;
  readiness_indicator_file = "";
}

-- The text, and the configuration that is left.
unfoldable pub generate : MultusConf → Bytes × MultusConf
unfolding flushed marshal_conf
generate conf = (marshal_conf (flushed conf), flushed conf)
