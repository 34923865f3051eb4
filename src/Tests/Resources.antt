-- ===== src/Tests/Resources.antt =====
-- Devices of a pod, attachments of a cache, and the routes of a container.
use mathlib.Core.List.{Memᴰ}
use mathlib.Core.List.Memᴰ.{head, tail}
use multus_cni.Base.{
  ◌≡◌, refl, none, some, List, [], ◌∷◌, ◌++◌, true, contains, ne_by_test, string_eq, All, ◌==◌,
  ◌&&◌,
}
use multus_cni.Base.Result.{Result, ok}
use multus_cni.Json.{malformed}
use multus_cni.Os.{read_file}
use multus_cni.Types.{ResourceMap, v4, NetConf, DelegateNetConf}
use multus_cni.Checkpoint.{PodDevicesEntry, checkpoint_resource_map}
use multus_cni.Checkpoint.Listed.{entry_ids, checkpoint_resource_map-entry_ids}
use multus_cni.K8sclient.Client.{Pod}
use multus_cni.Kubeletclient.{PodResources, kubelet_resource_map}
use multus_cni.Kubeletclient.Listed.{pod_ids, kubelet_resource_map-pod_ids}
use multus_cni.Multus.Gc.{Attachment, Operations, of_fault, first_delegate, cmd_gc}
use multus_cni.Tests.Hosts.{host, args, net_conf, delegate}
use multus_cni.Conf.Delegate.{load_delegate_net_conf}
use multus_cni.Conf.Netconf.{
  load_net_conf, load_raw_delegates, finish_net_conf, mark_master, isolate,
}
use multus_cni.K8sclient.Client.{get_k8s_client}
use multus_cni.Json.{marshal, written_fields}
use multus_cni.Multus.Gc.Attachments.{attachment, IsNamed, cmd_gc-keeps}
use multus_cni.Netutils.Routes.{Route, Netlink, delete_default_gw, set_default_gw, is_default}
use multus_cni.Netutils.Routes.Table.{without, default_routes, set-delete_default_gw}
use multus_cni.Resources.{devices}
use multus_cni.Tests.Hosts.{os}

abbrev pod : Pod
pod = record { name = "pod"; namespace = "default"; uid = "7"; annotations = [] }

abbrev entries : List PodDevicesEntry
entries =
    record {
      pod_uid = "7";
      container_name = "a";
      resource_name = "intel.com/sriov";
      device_ids = ("0000:03:02.1" ∷ []) ∷ [];
    }
    ∷ record {
      pod_uid = "7";
      container_name = "b";
      resource_name = "intel.com/sriov";
      device_ids = ("0000:03:02.3" ∷ []) ∷ [];
    }
    ∷ []

checkpoint_resource_map-entry_ids_example :
    (m : ResourceMap) × (checkpoint_resource_map entries pod ≡ ok m)
    × (devices "intel.com/sriov" m ≡ entry_ids "7" "intel.com/sriov" entries)
checkpoint_resource_map-entry_ids_example =
    checkpoint_resource_map-entry_ids entries pod "intel.com/sriov" (ne_by_test "7" "" refl)

abbrev listed : List PodResources
listed =
    record {
      name = "pod";
      namespace = "default";
      containers =
          record {
            devices =
                record { resource_name = "intel.com/sriov"; device_ids = "0000:03:02.1" ∷ [] } ∷ [];
            dynamic_resources =
                record {
                  class_name = "intel.com/sriov";
                  claim_resources = ("intel.com/vf=1" ∷ []) ∷ [];
                }
                ∷ [];
          }
          ∷ [];
    }
    ∷ []

kubelet_resource_map-pod_ids_example :
    (m : ResourceMap) × (kubelet_resource_map listed pod ≡ ok m)
    × (devices "intel.com/sriov" m ≡ pod_ids "pod" "default" "intel.com/sriov" listed)
kubelet_resource_map-pod_ids_example =
    kubelet_resource_map-pod_ids listed pod "intel.com/sriov" (ne_by_test "pod" "" refl)
      (ne_by_test "default" "" refl)

abbrev operations : Operations
operations = record {
  read_dir = λ _. ok ("a" ∷ "b" ∷ []);
  cached_names = λ _. some ("abc", "eth0");
  parse_list = λ _. none;
  status_list = λ _. none;
  gc_list = λ _ _. none;
}

reads_cached : read_file os (os.join ("" ∷ "b" ∷ [])) ≡ ok (malformed "saved")
unfolding read_file
reads_cached = refl

abbrev loaded : Result (NetConf × DelegateNetConf)
loaded = first_delegate host operations args none

abbrev first : NetConf × DelegateNetConf
first = elim loaded [ ok x ↦ x | _ ↦ (net_conf, delegate) ]

loads : first_delegate host operations args none ≡ ok first
unfolding first_delegate string_eq load_net_conf load_raw_delegates load_delegate_net_conf
    finish_net_conf marshal mark_master isolate get_k8s_client written_fields
loads = refl

cmd_gc-keeps_example :
    (kept : List Attachment) × (cmd_gc host operations args os none
      ≡ of_fault "error in GC command: " (operations.gc_list first.1.bytes kept))
    × Memᴰ (attachment "abc" "eth0") kept
    × All IsNamed kept
cmd_gc-keeps_example =
    cmd_gc-keeps host operations args os none first.0 first.1 ("a" ∷ "b" ∷ []) "b"
      (malformed "saved") "abc" "eth0" loads refl (tail (head refl)) reads_cached refl
      (ne_by_test "abc" "" refl, ne_by_test "eth0" "" refl)

abbrev netlink : Netlink
netlink = record {
  open_error = λ _. none;
  links = "eth0" ∷ "net1" ∷ [];
  del_error = λ _. none;
  add_error = λ _. none;
}

abbrev routes : List Route
routes =
    record { link = "net1"; dst = none; gw = some (v4 "10.1.0.1") }
    ∷ record { link = "eth0"; dst = none; gw = some (v4 "10.0.0.1") }
    ∷ record { link = "eth0"; dst = some "10.0.0.0/8"; gw = none }
    ∷ []

exists : contains netlink.links "net1" ≡ true
unfolding string_eq
exists = refl

set-delete_default_gw_example :
    let kept = without (λ r. r.link == "net1" && is_default r) routes in
    (delete_default_gw netlink "ns" "net1" routes ≡ (none, kept))
    × (set_default_gw netlink "ns" "net1" (v4 "10.1.0.2" ∷ []) kept
        ≡ (none, kept ++ default_routes "net1" (v4 "10.1.0.2" ∷ [])))
set-delete_default_gw_example =
    set-delete_default_gw netlink "ns" "net1" exists (v4 "10.1.0.2" ∷ []) routes
      (record { opens = refl; removes = (refl, (refl, (refl, tt))); adds = (refl, tt) })
