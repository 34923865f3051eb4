-- ===== src/Server/Requests/Override.antt =====
-- What the configuration of the daemon does to that of a request.
use multus_cni.Base.{String, ◌≡◌, refl, Bool, Option, none, some, string_eq, if◌then◌else◌, arith}
use multus_cni.Base.Result.{ok}
use multus_cni.Json.{Value, Fields, end, field, get, obj, json, marshal, unmarshal, written_fields}
use multus_cni.Json.Laws.{get-put}
use multus_cni.Server.Requests.{
  is_empty, unmarshal_map, is_ignored, copy_all, overridden, override_cni_config_with_server_config,
}

abbrev pub or_else : Option Value → Option Value → Option Value
or_else (some v) other = some v
or_else none other = other

-- The value of a key: that of the daemon, where it has one and the key is not ignored.
abbrev pub merged : Bool → String → Fields → Fields → Option Value
merged ignore k override cni =
    if is_ignored ignore k then get k cni else or_else (get k override) (get k cni)

get-copy_all :
    (ignore : Bool) (k : String) (override cni : Fields)
    → get k (copy_all ignore override cni) ≡ merged ignore k override cni
unfolding copy_all get
get-copy_all ignore k end cni = ground arith
get-copy_all ignore k (field j v more) cni =
    ground (arith, get-copy_all ignore k more cni, get-put k j v (copy_all ignore more cni))

-- A request runs with the configuration that it sent, where each key that the daemon's own
-- configuration has is replaced; the readiness indicator file of the daemon is left out where it is
-- to be ignored. Both are JSON objects.
pub override_cni_config-merged :
    (ignore : Bool) (override cni : Fields)
    → (fields : Fields) × (override_cni_config_with_server_config
          (json (obj cni))
          (json (obj override))
          ignore
        ≡ ok (json (obj (written_fields fields))))
      × ((k : String) → get k fields ≡ merged ignore k override cni)
unfolding override_cni_config_with_server_config is_empty unmarshal_map overridden unmarshal marshal
override_cni_config-merged ignore override cni =
    (copy_all ignore override cni, refl, λ k. get-copy_all ignore k override cni)
