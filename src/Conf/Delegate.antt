-- ===== src/Conf/Delegate.antt =====
-- LoadDelegateNetConf and LoadDelegateNetConfList: from the bytes of a network to its delegate.
pub mod Laws
pub mod Device
use multus_cni.Base.{
  String, ◌<>◌, Bool, true, false, ◌||◌, Option, none, some, List, [], ◌∷◌, ◌++◌, ◌==◌, ◌!=◌,
  string_eq, if◌then◌else◌,
}
use multus_cni.Base.Result.{Result, ok, err, panic, errorf, context, or_err, ◌>>=◌, ◌>>◌}
use multus_cni.Json.{Bytes, Fields}
use multus_cni.Types.{Ip, CniConf, CniConfList, DelegateNetConf, NetworkSelectionElement}
use multus_cni.Conf.Inject.{
  delegate_add_device_id, add_device_id_in_conf_list, add_cni_args_in_config,
  add_cni_args_in_conf_list,
}

-- json.Unmarshal into the structures of the CNI library.
pub record Decoders : Type 0 where
  pub net_conf : Bytes → Option CniConf
  pub net_conf_list : Bytes → Option CniConfList

abbrev pub no_conf_list : CniConfList
no_conf_list = record { cni_version = ""; name = ""; plugins = none }

-- The structure that json.Unmarshal has just filled `Conf` of.
abbrev pub fresh : CniConf → Bytes → DelegateNetConf
fresh conf bytes = record {
  conf = conf;
  conf_list = no_conf_list;
  name = conf.name;
  ifname_request = "";
  mac_request = "";
  infiniband_guid_request = "";
  ip_request = none;
  port_mappings_request = none;
  bandwidth_request = none;
  gateway_request = none;
  is_filter_v4_gateway = false;
  is_filter_v6_gateway = false;
  master_plugin = false;
  conf_list_plugin = false;
  device_id = "";
  resource_name = "";
  bytes = bytes;
}

-- `Plugins[0].Type`: an empty list that is not nil panics.
check_plugins : Option (List CniConf) → Result (Unit {0})
check_plugins none =
    err (errorf "LoadDelegateNetConfList: delegate must have the 'type' or 'plugin' field")
check_plugins (some []) = panic
check_plugins (some (p ∷ _)) =
    if p.kind == ""
    then err (errorf "LoadDelegateNetConfList: a plugin delegate must have the 'type' field")
    else ok tt

-- The fields that a selection element overwrites.
abbrev or_text : String → String → String
or_text new old = if new == "" then old else new

abbrev or_given {ℓ} : {A : Type ℓ} → Option A → Option A → Option A
or_given (some a) old = some a
or_given none old = old

abbrev add_gateways : Option (List Ip) → Option (List Ip) → Option (List Ip)
add_gateways none old = old
add_gateways (some new) none = some new
add_gateways (some new) (some old) = some (old ++ new)

unfoldable pub apply_element : NetworkSelectionElement → String → DelegateNetConf → DelegateNetConf
apply_element e device_id d = record d {
  name = if e.name == "" then d.name else e.namespace <> "/" <> e.name;
  ifname_request = or_text e.interface_request d.ifname_request;
  mac_request = or_text e.mac_request d.mac_request;
  ip_request = or_given e.ip_request d.ip_request;
  bandwidth_request = or_given e.bandwidth_request d.bandwidth_request;
  port_mappings_request = or_given e.port_mappings_request d.port_mappings_request;
  gateway_request = add_gateways e.gateway_request d.gateway_request;
  infiniband_guid_request = or_text e.infiniband_guid_request d.infiniband_guid_request;
  device_id = if e.device_id == "" || device_id != "" then d.device_id else e.device_id;
}

abbrev apply_element? : Option NetworkSelectionElement → String → DelegateNetConf → DelegateNetConf
apply_element? none device_id d = d
apply_element? (some e) device_id d = apply_element e device_id d

abbrev args_of : Option NetworkSelectionElement → Option Fields
args_of none = none
args_of (some e) = e.cni_args

-- What differs between a configuration and a list of them: how a device and arguments are injected.
inject_device : (Bytes → String → Result Bytes) → String → Bytes → Result Bytes
inject_device inject device_id bytes = if device_id == "" then ok bytes else inject bytes device_id

inject_args : (Bytes → Fields → Result Bytes) → Option Fields → Bytes → Result Bytes
inject_args inject none bytes = ok bytes
inject_args inject (some args) bytes = inject bytes args

-- The bytes of a list and of a single configuration, with the device and the arguments.
unfoldable pub list_bytes : Bytes → Option Fields → String → Result Bytes
unfolding inject_device inject_args
list_bytes bytes args device_id = do
  with_id ←
      context "LoadDelegateNetConf: failed to add deviceID in NetConfList bytes: "
        (inject_device add_device_id_in_conf_list device_id bytes)
  context "LoadDelegateNetConf(): failed to add cni-args in NetConfList bytes: "
      (inject_args add_cni_args_in_conf_list args with_id)

unfoldable pub single_bytes : Bytes → Option Fields → String → Result Bytes
unfolding inject_device inject_args
single_bytes bytes args device_id = do
  with_id ←
      context "LoadDelegateNetConf: failed to add deviceID in NetConf bytes: "
        (inject_device delegate_add_device_id device_id bytes)
  context "LoadDelegateNetConf(): failed to add cni-args in NetConfList bytes: "
      (inject_args add_cni_args_in_config args with_id)

-- `delegateConf.ResourceName` and `DeviceID`, where there is a device.
abbrev with_device : String → String → DelegateNetConf → DelegateNetConf
with_device device_id resource_name d =
    if device_id == "" then d else record d { resource_name = resource_name; device_id = device_id }

module _ (D : Decoders) where
  unfoldable pub load_delegate_net_conf_list : Bytes → DelegateNetConf → Result DelegateNetConf
  unfolding check_plugins
  load_delegate_net_conf_list bytes d = do
    conf_list ←
        or_err "LoadDelegateNetConfList: error unmarshalling delegate conflist"
          (D.net_conf_list bytes)
    check_plugins conf_list.plugins
    ok (record d { conf_list = conf_list; conf_list_plugin = true; name = conf_list.name })

  -- `Conf.Type` is empty: the bytes are a list of configurations.
  load_list :
      Bytes
      → Option NetworkSelectionElement
      → String
      → String
      → DelegateNetConf
      → Result DelegateNetConf
  unfolding list_bytes
  load_list bytes element device_id resource_name d = do
    d' ← context "LoadDelegateNetConf: failed with: " (load_delegate_net_conf_list bytes d)
    bytes' ← list_bytes bytes (args_of element) device_id
    ok (record (with_device device_id resource_name d') { bytes = bytes' })

  load_single :
      Bytes
      → Option NetworkSelectionElement
      → String
      → String
      → DelegateNetConf
      → Result DelegateNetConf
  unfolding single_bytes
  load_single bytes element device_id resource_name d = do
    bytes' ← single_bytes bytes (args_of element) device_id
    ok (record (with_device device_id resource_name d) { bytes = bytes' })

  unfoldable pub load_delegate_net_conf :
      Bytes → Option NetworkSelectionElement → String → String → Result DelegateNetConf
  unfolding load_list load_single apply_element
  load_delegate_net_conf bytes element device_id resource_name = do
    conf ← or_err "LoadDelegateNetConf: error unmarshalling delegate config" (D.net_conf bytes)
    d ←
        (if conf.kind == ""
          then load_list bytes element device_id resource_name (fresh conf bytes)
          else load_single bytes element device_id resource_name (fresh conf bytes))
    ok (apply_element? element device_id d)
