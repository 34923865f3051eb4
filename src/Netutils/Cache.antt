-- ===== src/Netutils/Cache.antt =====
-- The cache files of libcni: DeleteDefaultGWCache and AddDefaultGWCache, from the file to the file.
use multus_cni.Base.{String, ◌<>◌, Bool, List, [], ◌∷◌}
use multus_cni.Base.Result.{Result, ok, err, panic, or_err, ◌>>=◌}
use multus_cni.Json.{obj, Bytes, Fields, get, put, as_map, unmarshal, marshal}
use multus_cni.Types.{Ip, RuntimeConf}
use multus_cni.Os.{Os, read_file, write_file}
use multus_cni.Netutils.Delete.{delete_default_gw_result}
use multus_cni.Netutils.Add.{add_default_gw_result}

-- deleteDefaultGWCacheBytes and addDefaultGWCacheBytes, over the change that they make to the result.
unfoldable pub update_cache_bytes : (Fields → Result Fields) → Bytes → Result Bytes
unfolding unmarshal marshal
update_cache_bytes change cache_file = do
  cached_info ← unmarshal cache_file
  value ← or_err "cannot get result from cache" (get "result" cached_info)
  result ← or_err "wrong result type" (as_map value)
  new_result ← change result
  marshal (put "result" (obj new_result) cached_info)

unfoldable pub delete_default_gw_cache_bytes : Bytes → Bool → Bool → Result Bytes
unfolding update_cache_bytes
delete_default_gw_cache_bytes cache_file ipv4 ipv6 =
    update_cache_bytes (λ r. delete_default_gw_result r ipv4 ipv6) cache_file

unfoldable pub add_default_gw_cache_bytes : Bytes → List Ip → Result Bytes
unfolding update_cache_bytes
add_default_gw_cache_bytes cache_file gw =
    update_cache_bytes (λ r. add_default_gw_result r gw) cache_file

unfoldable pub cache_path : Os → String → RuntimeConf → String → String
cache_path os cache_dir rt net_name =
    os.join (cache_dir ∷ "results" ∷ (net_name <> "-" <> rt.container_id <> "-" <> rt.if_name) ∷ [])

-- Reads a file, and writes what the change makes of it. An error leaves the file as it was.
unfoldable pub rewrite_file : (Bytes → Result Bytes) → String → Os → Result (Unit {0}) × Os
rewrite_file change path os = elim (read_file os path >>= change) [
  | ok new_cache ↦ write_file os path new_cache
  | err e ↦ (err e, os)
  | panic ↦ (panic, os)
]

unfoldable pub delete_default_gw_cache :
    String → RuntimeConf → String → Bool → Bool → Os → Result (Unit {0}) × Os
unfolding rewrite_file cache_path delete_default_gw_cache_bytes
delete_default_gw_cache cache_dir rt net_name ipv4 ipv6 os =
    rewrite_file (λ b. delete_default_gw_cache_bytes b ipv4 ipv6)
      (cache_path os cache_dir rt net_name) os

unfoldable pub add_default_gw_cache :
    String → RuntimeConf → String → List Ip → Os → Result (Unit {0}) × Os
unfolding rewrite_file cache_path add_default_gw_cache_bytes
add_default_gw_cache cache_dir rt net_name gw os =
    rewrite_file (λ b. add_default_gw_cache_bytes b gw) (cache_path os cache_dir rt net_name) os
