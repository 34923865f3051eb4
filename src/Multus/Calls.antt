-- ===== src/Multus/Calls.antt =====
-- What the commands do outside of themselves, and what they are answered.
use multus_cni.Base.{String, Bool, Option, List}
use multus_cni.Base.Result.{Error}
use multus_cni.Json.{Bytes, Fields}
use multus_cni.Types.{RuntimeConf}
use multus_cni.K8sclient.Annotation.{Parsers}
use multus_cni.K8sclient.Client.{Pod}

pub data Action : Type 0 where
  add check del : Action

-- What Multus does outside of itself: an operation of libcni on a configuration or on a list of
-- them, with the directories of the plugins and of the cache; an event for the pod with the
-- interface, its addresses and the network; the copy of a device's information to a file and the
-- removal of such a file; and the network status that a pod is annotated with.
pub data Call : Type 0 where
  invoke : Action → Bool → RuntimeConf → Bytes → String → String → Call
  event : Pod → String → List String → String → Call
  copy : String → String → String → Call
  clean : String → Call
  annotate : Pod → List Fields → Call

-- The container, the network namespace and the interface that an operation is for.
abbrev pub place : RuntimeConf → String × String × String
place rt = (rt.container_id, rt.net_ns, rt.if_name)

-- The calls so far, the latest one first.
abbrev pub Trace : Type 0
Trace = List Call

pub data Reply : Type 0 where
  done : Fields → Reply
  refused : Error → Reply

-- libcni with its plugins, whose answers can depend on all the calls before: ConfFromBytes or
-- ConfListFromBytes, AddNetwork or AddNetworkList, and the two other operations. `get_ns` and
-- `link_by_name` are the errors of ns.GetNS and, in a namespace, of netlink.LinkByName, `result_of` the conversion
-- of a result to the current version: its addresses, and whether it has interfaces or addresses.
pub record Plugins : Type 0 where
  pub parse_error : Bool → Bytes → Option Error
  pub add_reply : Trace → Call → Reply
  pub reply : Trace → Call → Option Error
  pub get_ns : Trace → String → Option Error
  pub link_by_name : Trace → String → String → Option Error
  pub result_of : Fields → Option (List String × Bool)
  pub parsers : Parsers
  pub quote : String → String
