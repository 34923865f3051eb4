-- ===== src/Multus/Host.antt =====
-- What the commands run on.
use multus_cni.Base.{String, Bool, Option, List}
use multus_cni.Base.Result.{Result}
use multus_cni.Json.{Bytes, Fields}
use multus_cni.Os.{Os}
use multus_cni.Types.{K8sArgs, CniConfList}
use multus_cni.Conf.Netconf.{ConfReader}
use multus_cni.Conf.Readiness.{FileStat}
use multus_cni.Conf.Runtime.{Environment}
use multus_cni.K8sclient.Client.{Client, ClientFactory}
use multus_cni.Netutils.Routes.{Netlink}
use multus_cni.Multus.Calls.{Trace, Plugins}
use multus_cni.Multus.Pod.{PodReads}
use multus_cni.Multus.Scratch.{Codec}

-- Besides the parts above: cni types.LoadArgs; the client library of network attachments, which
-- reads a device information file and makes the statuses of a result (with the name of the network,
-- whether it is the master, and the device); what libcni and the plugins have made of the files
-- after the calls; and the JSON of a list of configurations.
pub record Host : Type 0 where
  pub plugins : Plugins
  pub environment : Environment
  pub netlink : Netlink
  pub codec : Codec
  pub reader : ConfReader
  pub factory : ClientFactory
  pub files : FileStat
  pub pod_reads : Client → K8sArgs → PodReads
  pub load_args : String → Result K8sArgs
  pub load_device_info : Trace → String → Option Fields
  pub network_statuses : Fields → String → Bool → Option Fields → Result (List Fields)
  pub files_after : Trace → Os → Os
  pub encode_list : CniConfList → Result Bytes
