-- ===== src/Conf/Runtime.antt =====
-- mergeCNIRuntimeConfig, delegateRuntimeConfig, createRuntimeConf, newCNIRuntimeConf and
-- CreateCNIRuntimeConf: what the plugin of a delegate is called with.
pub mod Args
pub mod Capabilities
use mathlib.Core.Option
use multus_cni.Base.{
  String, ◌<>◌, Bool, true, false, not, ◌&&◌, Option, none, some, List, [], ◌∷◌, ◌++◌, ◌==◌, ◌!=◌,
  string_eq, if◌then◌else◌,
}
use multus_cni.Base.Dict.{Dict, insert}
use multus_cni.Text.{split, split_once}
use multus_cni.Types.{
  RuntimeConfig, DelegateNetConf, K8sArgs, CmdArgs, Capability, port_mappings, bandwidth, ips, text,
  RuntimeConf,
}

abbrev pub no_runtime_config : RuntimeConfig
no_runtime_config = record {
  port_maps = none;
  bandwidth = none;
  ips = none;
  mac = "";
  infiniband_guid = "";
  device_id = "";
  cni_device_info_file = "";
}

abbrev pub or_default : Option RuntimeConfig → RuntimeConfig
or_default none = no_runtime_config
or_default (some rc) = rc

abbrev pub or_given {ℓ} : {A : Type ℓ} → Option A → Option A → Option A
or_given (some a) old = some a
or_given none old = old

abbrev pub or_text : String → String → String
or_text new old = if new != "" then new else old

unfoldable pub merge_cni_runtime_config : Option RuntimeConfig → DelegateNetConf → RuntimeConfig
merge_cni_runtime_config rc delegate =
    let merged = or_default rc in
    if not delegate.master_plugin
    then record merged {
      port_maps = or_given delegate.port_mappings_request merged.port_maps;
      bandwidth = or_given delegate.bandwidth_request merged.bandwidth;
      ips = or_given delegate.ip_request merged.ips;
      mac = or_text delegate.mac_request merged.mac;
      infiniband_guid = or_text delegate.infiniband_guid_request merged.infiniband_guid;
      device_id = or_text delegate.device_id merged.device_id;
    }
    else merged

-- `len(l) != 0`
abbrev pub is_nonempty {ℓ} : {A : Type ℓ} → Option (List A) → Bool
is_nonempty (some (x ∷ xs)) = true
is_nonempty _ = false

-- `if test { capabilityArgs[key] = value }`
abbrev insert_given {ℓ} : {V : Type ℓ} → String → Option V → Dict V → Dict V
insert_given key none d = d
insert_given key (some v) d = insert key v d

abbrev pub given_list {ℓ κ} : {A : Type ℓ} {B : Type κ} → (List A → B) → Option (List A) → Option B
given_list f (some (x ∷ xs)) = some (f (x ∷ xs))
given_list f _ = none

abbrev pub given_text : String → Option Capability
given_text t = if t != "" then some (text t) else none

unfoldable pub capability_args : RuntimeConfig → Dict Capability
capability_args rc = insert_given "CNIDeviceInfoFile" (given_text rc.cni_device_info_file) (
    insert_given "deviceID" (given_text rc.device_id) (
      insert_given "infinibandGUID" (given_text rc.infiniband_guid) (
        insert_given "mac" (given_text rc.mac) (
          insert_given "ips" (given_list ips rc.ips) (
            insert_given "bandwidth" (Option.map bandwidth rc.bandwidth)
              (insert_given "portMappings" (given_list port_mappings rc.port_maps) []))))))

-- The arguments in the order that the logs rely on.
abbrev pub create_args : String → String → String → String → List (String × String)
create_args pod_namespace pod_name sandbox_id pod_uid =
    ("IgnoreUnknown", "true")
    ∷ ("K8S_POD_NAMESPACE", pod_namespace)
    ∷ ("K8S_POD_NAME", pod_name)
    ∷ ("K8S_POD_INFRA_CONTAINER_ID", sandbox_id)
    ∷ ("K8S_POD_UID", pod_uid)
    ∷ []

-- The loop over `rt.Args`: the first entry of the key whose value is empty is given the value.
set_empty : String → String → List (String × String) → Option (List (String × String))
set_empty key val [] = none
set_empty key val ((k, v) ∷ args) =
    let rest = set_empty key val args in
    if k == key && v == "" && val != ""
    then some ((k, val) ∷ args)
    else Option.map (λ more. (k, v) ∷ more) rest

add_arg : String → String → List (String × String) → List (String × String)
unfolding set_empty
add_arg key val args = elim (set_empty key val args) [
  | some args' ↦ args'
  | none ↦ args ++ (key, val) ∷ []
]

-- An item with no "=" is skipped.
add_item : List (String × String) → String × Option String → List (String × String)
unfolding add_arg
add_item args (key, none) = args
add_item args (key, some val) = add_arg key val args

add_items : List String → List (String × String) → List (String × String)
unfolding add_item
add_items [] args = args
add_items (item ∷ items) args = add_items items (add_item args (split_once b'=' item))

unfoldable pub add_cni_args : String → List (String × String) → List (String × String)
unfolding add_items
add_cni_args cni_args args = if cni_args != "" then add_items (split b';' cni_args) args else args

-- The environment variable CNI_ARGS, and the path that the client library of network attachment
-- definitions gives to the device information of a name.
pub record Environment : Type 0 where
  pub cni_args : String
  pub cni_device_info_path : String → String

module _ (E : Environment) where
  -- A delegate with a device gets a file for the device's information.
  unfoldable pub delegate_runtime_config :
      String → DelegateNetConf → Option RuntimeConfig → String → RuntimeConfig
  unfolding merge_cni_runtime_config
  delegate_runtime_config container_id delegate rc if_name =
      let merged = merge_cni_runtime_config rc delegate in
      if merged.device_id != ""
      then record merged {
        cni_device_info_file =
            E.cni_device_info_path (delegate.name <> "-" <> container_id <> "_" <> if_name);
      }
      else merged

  -- Every caller has a delegate, so the runtime configuration of a delegate is never nil.
  unfoldable pub create_cni_runtime_conf :
      CmdArgs → K8sArgs → String → Option RuntimeConfig → DelegateNetConf → RuntimeConf × String
  unfolding delegate_runtime_config add_cni_args capability_args
  create_cni_runtime_conf args k8s_args if_name rc delegate =
      let delegate_rc = delegate_runtime_config args.container_id delegate rc if_name in
      (
        record {
          container_id = args.container_id;
          net_ns = args.netns;
          if_name = if_name;
          args = add_cni_args E.cni_args (
              create_args k8s_args.pod_namespace k8s_args.pod_name k8s_args.pod_infra_container_id
                k8s_args.pod_uid);
          capability_args = capability_args delegate_rc;
        },
        delegate_rc.cni_device_info_file,
      )
