-- ===== src/Checkpoint/Listed.antt =====
-- The devices of a resource, as the checkpoint file lists them for a pod.
use mathlib.Core.List.{append-nil}
use multus_cni.Base.{
  String, ◌≡◌, ◌≢◌, refl, sym, ap, ◌∙◌, Bool, Bool-cases, inl, inr, true, false, List, [], ◌∷◌,
  ◌++◌, ◌==◌, string_eq, if◌then◌else◌, arith,
}
use multus_cni.Base.Result.{ok}
use multus_cni.Base.Dict.{lookup}
use multus_cni.Types.{ResourceMap}
use multus_cni.K8sclient.Client.{Pod}
use multus_cni.Checkpoint.{PodDevicesEntry, add_lists, add_entries, checkpoint_resource_map}
use multus_cni.Resources.{devices, add_ids, devices-add_ids, append_twice}

abbrev pub joined : List (List String) → List String
joined [] = []
joined (ids ∷ lists) = ids ++ joined lists

-- The devices of a resource in the entries of a pod, in their order.
abbrev pub entry_ids : String → String → List PodDevicesEntry → List String
entry_ids pod_id r [] = []
entry_ids pod_id r (entry ∷ entries) =
    (if entry.pod_uid == pod_id
      then (if r == entry.resource_name then joined entry.device_ids else [])
      else [])
    ++ entry_ids pod_id r entries

if_same : (b : Bool) (ids : List String) → (if b then ids else ids) ≡ ids
if_same true ids = refl
if_same false ids = refl

if_append :
    (b : Bool) (x y : List String)
    → (if b then x else []) ++ (if b then y else []) ≡ (if b then x ++ y else [])
if_append true x y = refl
if_append false x y = refl

devices-add_lists :
    (r resource : String) (lists : List (List String)) (m : ResourceMap)
    → devices r (add_lists resource lists m)
      ≡ devices r m ++ (if r == resource then joined lists else [])
unfolding add_lists
devices-add_lists r resource [] m =
    sym (ap (λ l. devices r m ++ l) (if_same (r == resource) []) ∙ append-nil (devices r m))
devices-add_lists r resource (ids ∷ lists) m =
    append_twice _ _ _ (devices-add_ids r resource ids m)
      (devices-add_lists r resource lists (add_ids resource ids m))
    ∙ ap (λ l. devices r m ++ l) (if_append (r == resource) ids (joined lists))

devices-add_entries :
    (pod_id r : String) (entries : List PodDevicesEntry) (m : ResourceMap)
    → devices r (add_entries pod_id entries m) ≡ devices r m ++ entry_ids pod_id r entries
unfolding add_entries
devices-add_entries pod_id r [] m = sym (append-nil (devices r m))
devices-add_entries pod_id r (entry ∷ entries) m = elim (Bool-cases (entry.pod_uid == pod_id)) [
  | inl h ↦
      let m' = add_ids entry.resource_name [] m in
      let made =
        append_twice _ _ _ (devices-add_ids r entry.resource_name [] m)
          (devices-add_lists r entry.resource_name entry.device_ids m')
        ∙ ap (λ l. devices r m ++ l)
            (if_append (r == entry.resource_name) [] (joined entry.device_ids)) in
      rw h (
        append_twice _ _ _ made (
          devices-add_entries pod_id r entries (add_lists entry.resource_name entry.device_ids m')))
  | inr h ↦ rw h (devices-add_entries pod_id r entries m)
]

-- The checkpoint file gives a pod with a UID exactly the devices that its entries list for a
-- resource, of all its containers and in their order.
pub checkpoint_resource_map-entry_ids :
    (entries : List PodDevicesEntry) (pod : Pod) (r : String)
    → pod.uid ≢ ""
    → (m : ResourceMap) × (checkpoint_resource_map entries pod ≡ ok m)
      × (devices r m ≡ entry_ids pod.uid r entries)
unfolding checkpoint_resource_map lookup
checkpoint_resource_map-entry_ids entries pod r named = (
  add_entries pod.uid entries [],
  ground (arith, named),
  devices-add_entries pod.uid r entries [],
)
