-- ===== src/Resources.antt =====
-- The map of a pod's resources to their devices, as pkg/checkpoint and pkg/kubeletclient build it.
use mathlib.Core.List.{append-nil, append_assoc}
use multus_cni.Base.{
  String, ◌≡◌, refl, sym, ap, ◌∙◌, Bool, Bool-cases, inl, inr, true, Option, none, some, List, [],
  ◌++◌, ◌==◌, string_eq, if◌then◌else◌, arith,
}
use multus_cni.Base.Dict.{lookup, insert, lookup-insert}
use multus_cni.Types.{ResourceInfo, ResourceMap}

abbrev pub info : List String → ResourceInfo
info ids = record { index = 0; device_ids = ids }

-- The devices of a resource, and those behind them.
abbrev pub append_ids : Option ResourceInfo → List String → ResourceInfo
append_ids none ids = info ids
append_ids (some entry) ids = record entry { device_ids = entry.device_ids ++ ids }

-- `DeviceIDs = append(DeviceIDs, ids...)` at the entry of the resource, which is made if it is missing.
unfoldable pub add_ids : String → List String → ResourceMap → ResourceMap
add_ids resource ids m = insert resource (append_ids (lookup resource m) ids) m

abbrev pub ids_of : Option ResourceInfo → List String
ids_of none = []
ids_of (some entry) = entry.device_ids

-- The devices of a resource in the map.
abbrev pub devices : String → ResourceMap → List String
devices r m = ids_of (lookup r m)

ids_of-append :
    (o : Option ResourceInfo) (ids : List String) → (append_ids o ids).device_ids ≡ ids_of o ++ ids
ids_of-append none ids = refl
ids_of-append (some entry) ids = refl

append_if : Bool → List String → Option ResourceInfo → Option ResourceInfo → List String
append_if b ids o o' = ids_of (if b then some (append_ids o ids) else o')

same_text : (s t : String) → (s == t) ≡ true → s ≡ t
same_text s t h = ground (arith, h)

pub devices-add_ids :
    (r resource : String) (ids : List String) (m : ResourceMap)
    → devices r (add_ids resource ids m) ≡ devices r m ++ (if r == resource then ids else [])
unfolding add_ids append_if
devices-add_ids r resource ids m =
    let inserted = ap ids_of (lookup-insert r resource (append_ids (lookup resource m) ids) m) in
    elim (Bool-cases (r == resource)) [
      | inl h ↦ rw h (
          inserted
          ∙ ap (λ b. append_if b ids (lookup resource m) (lookup r m)) h
          ∙ ids_of-append (lookup resource m) ids
          ∙ ap (λ t. devices t m ++ ids) (sym (same_text r resource h)))
      | inr h ↦ rw h (
          inserted
          ∙ ap (λ b. append_if b ids (lookup resource m) (lookup r m)) h
          ∙ sym (append-nil (devices r m)))
    ]

-- Devices are appended twice.
pub append_twice :
    (before x y : List String) {middle after : List String}
    → middle ≡ before ++ x
    → after ≡ middle ++ y
    → after ≡ before ++ (x ++ y)
append_twice before x y p q = q ∙ (ap (λ l. l ++ y) p ∙ append_assoc before x y)
