-- ===== src/Checkpoint.antt =====
-- pkg/checkpoint/checkpoint.go: the devices of pods in the kubelet's checkpoint file.
pub mod Listed
use multus_cni.Base.{
  String, ◌<>◌, Bool, Option, none, some, List, [], ◌∷◌, ◌==◌, string_eq, if◌then◌else◌,
}
use multus_cni.Base.Result.{Result, ok, err, panic, errorf, context, or_err, ◌>>=◌}
use multus_cni.Json.{Bytes}
use multus_cni.Os.{Os, read_file}
use multus_cni.Types.{ResourceMap}
use multus_cni.K8sclient.Client.{Pod}
use multus_cni.Resources.{add_ids}

-- The lists of `device_ids` stand in the order in which the loop ranges over the map, which Go
-- leaves open.
pub record PodDevicesEntry : Type 0 where
  pub pod_uid : String
  pub container_name : String
  pub resource_name : String
  pub device_ids : List (List String)

abbrev check_point_file : String
check_point_file = "/var/lib/kubelet/device-plugins/kubelet_internal_checkpoint"

-- The entries that json.Unmarshal finds in the file.
abbrev pub Decoder : Type 0
Decoder = Bytes → Option (List PodDevicesEntry)

unfoldable pub get_pod_entries : Decoder → Os → String → Result (List PodDevicesEntry)
get_pod_entries decode os path =
    context ("getPodEntries: error reading file " <> check_point_file <> "\n") (read_file os path)
    >>= λ bytes. or_err "getPodEntries: error unmarshalling raw bytes" (decode bytes)

unfoldable pub get_checkpoint : Decoder → Os → Result (List PodDevicesEntry)
unfolding get_pod_entries
get_checkpoint decode os = get_pod_entries decode os check_point_file

-- The loop over the lists of devices of an entry, which is made before it.
unfoldable pub add_lists : String → List (List String) → ResourceMap → ResourceMap
unfolding add_ids
add_lists resource [] m = m
add_lists resource (ids ∷ lists) m = add_lists resource lists (add_ids resource ids m)

unfoldable pub add_entries : String → List PodDevicesEntry → ResourceMap → ResourceMap
unfolding add_lists add_ids
add_entries pod_id [] m = m
add_entries pod_id (entry ∷ entries) m = add_entries pod_id entries (
    if entry.pod_uid == pod_id
    then add_lists entry.resource_name entry.device_ids (add_ids entry.resource_name [] m)
    else m)

unfoldable pub checkpoint_resource_map : List PodDevicesEntry → Pod → Result ResourceMap
unfolding add_entries
checkpoint_resource_map entries pod =
    if pod.uid == ""
    then err (errorf "GetPodResourceMap: invalid Pod cannot be empty")
    else ok (add_entries pod.uid entries [])
