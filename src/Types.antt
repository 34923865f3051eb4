-- ===== src/Types.antt =====
-- pkg/types/types.go: the configuration of Multus, a delegate, a selection element and the resources
-- of a pod. Of the third-party types it stands on (cni, libcni, net) the fields that the code reads.
-- LogOptions and the raw forms of fields that LoadNetConf consumes stay with their reader.
use multus_cni.Base.{ℕ, String, Bool, Option, List}
use multus_cni.Base.Dict.{Dict}
use multus_cni.Json.{Bytes, Fields}

-- net.IP: `To4` tells the family, and `String` gives the text.
pub data Ip : Type 0 where
  v4 : String → Ip
  v6 : String → Ip

pub record PortMapEntry : Type 0 where
  pub host_port : String
  pub container_port : String
  pub protocol : String
  pub host_ip : String

pub record BandwidthEntry : Type 0 where
  pub ingress_rate : String
  pub ingress_burst : String
  pub egress_rate : String
  pub egress_burst : String

-- A slice or pointer that the code compares with nil is an `Option`.
pub record RuntimeConfig : Type 0 where
  pub port_maps : Option (List PortMapEntry)
  pub bandwidth : Option BandwidthEntry
  pub ips : Option (List String)
  pub mac : String
  pub infiniband_guid : String
  pub device_id : String
  pub cni_device_info_file : String

-- The configuration of one CNI plugin (cni types.NetConf).
pub record CniConf : Type 0 where
  pub cni_version : String
  pub name : String
  pub kind : String

-- A CNI configuration list (cni types.NetConfList).
pub record CniConfList : Type 0 where
  pub cni_version : String
  pub name : String
  pub plugins : Option (List CniConf)

pub record DelegateNetConf : Type 0 where
  pub conf : CniConf
  pub conf_list : CniConfList
  pub name : String
  pub ifname_request : String
  pub mac_request : String
  pub infiniband_guid_request : String
  pub ip_request : Option (List String)
  pub port_mappings_request : Option (List PortMapEntry)
  pub bandwidth_request : Option BandwidthEntry
  pub gateway_request : Option (List Ip)
  pub is_filter_v4_gateway : Bool
  pub is_filter_v6_gateway : Bool
  pub master_plugin : Bool
  pub conf_list_plugin : Bool
  pub device_id : String
  pub resource_name : String
  pub bytes : Bytes

pub record NetworkSelectionElement : Type 0 where
  pub name : String
  pub namespace : String
  pub ip_request : Option (List String)
  pub mac_request : String
  pub infiniband_guid_request : String
  pub interface_request : String
  pub deprecated_interface_request : String
  pub port_mappings_request : Option (List PortMapEntry)
  pub bandwidth_request : Option BandwidthEntry
  pub device_id : String
  pub cni_args : Option Fields
  pub gateway_request : Option (List Ip)

pub record NetConf : Type 0 where
  pub cni_version : String
  pub conf_dir : String
  pub cni_dir : String
  pub bin_dir : String
  pub raw_prev_result : Option Fields
  pub raw_delegates : List Fields
  pub delegates : List DelegateNetConf
  pub cluster_network : String
  pub default_networks : List String
  pub kubeconfig : String
  pub runtime_config : Option RuntimeConfig
  pub readiness_indicator_file : String
  pub namespace_isolation : Bool
  pub raw_non_isolated_namespaces : String
  pub non_isolated_namespaces : List String
  pub system_namespaces : List String
  pub multus_namespace : String
  pub retry_delete_on_error : Bool

pub record K8sArgs : Type 0 where
  pub pod_name : String
  pub pod_namespace : String
  pub pod_infra_container_id : String
  pub pod_uid : String

pub record ResourceInfo : Type 0 where
  pub index : ℕ
  pub device_ids : List String

-- map[string]*ResourceInfo, where it is not nil.
abbrev pub ResourceMap : Type 0
ResourceMap = Dict ResourceInfo

-- skel.CmdArgs: the arguments of a CNI command.
pub record CmdArgs : Type 0 where
  pub container_id : String
  pub netns : String
  pub if_name : String
  pub args : String
  pub stdin_data : Bytes

-- What a delegate's capability is given (a value of libcni's CapabilityArgs).
pub data Capability : Type 0 where
  port_mappings : List PortMapEntry → Capability
  bandwidth : BandwidthEntry → Capability
  ips : List String → Capability
  text : String → Capability

-- libcni.RuntimeConf
pub record RuntimeConf : Type 0 where
  pub container_id : String
  pub net_ns : String
  pub if_name : String
  pub args : List (String × String)
  pub capability_args : Dict Capability
