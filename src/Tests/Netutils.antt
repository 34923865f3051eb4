-- ===== src/Tests/Netutils.antt =====
-- Results of CNI plugins, and the removal and the addition of their default routes.
use multus_cni.Base.{
  some, String, ◌≡◌, refl, true, false, List, [], ◌∷◌, All, ◌==◌, string_eq, if◌then◌else◌,
}
use multus_cni.Base.Result.{ok, err, errorf}
use multus_cni.Json.{Value, str, arr, obj, items, elems, Fields, end, field, get, Bytes, json}
use multus_cni.Types.{v4}
use multus_cni.Netutils.Delete.{delete_default_gw_result}
use multus_cni.Netutils.Cache.{delete_default_gw_cache_bytes, add_default_gw_cache_bytes}
use multus_cni.Netutils.Remaining.{IsRoute, remaining}
use multus_cni.Netutils.Results.{IsCurrent, listed, delete_default_gw_result-get}
use multus_cni.Netutils.Cached.{delete-add_default_gw_cache_bytes}
use multus_cni.Types.{v6}
use multus_cni.Netutils.Old.{IsOldDefault, add-delete_default_gw_cache_bytes_fails}

abbrev route : String → Value
route dst = obj (field "dst" (str dst) (field "gw" (str "10.1.1.1") end))

abbrev routes : List Value
routes = route "0.0.0.0/0" ∷ route "10.0.0.0/8" ∷ route "::0/0" ∷ []

abbrev result : Fields
result = field "cniVersion" (str "1.0.0") (field "routes" (arr (items routes)) end)

routes-IsRoute : All IsRoute routes
unfolding get string_eq
routes-IsRoute = (tt, (tt, (tt, tt)))

result-IsCurrent : IsCurrent result "1.0.0" (items routes)
unfolding get string_eq
result-IsCurrent = record {
  states = refl;
  supported = refl;
  lists = refl;
  formed = (tt, (tt, (tt, tt)));
}

delete_default_gw_result-get_example :
    (result' : Fields) × (delete_default_gw_result result true false ≡ ok result')
    × ((k : String)
        → get k result' ≡ (
            if k == "routes"
            then listed (remaining true false (elems (items routes)))
            else get k result))
delete_default_gw_result-get_example =
    delete_default_gw_result-get result "1.0.0" (items routes) true false result-IsCurrent

abbrev current : Fields
current = field "kind" (str "cniCacheV1") (field "result" (obj result) end)

current-holds : get "result" current ≡ some (obj result)
unfolding get string_eq
current-holds = refl

delete-add_default_gw_cache_bytes_example :
    (b : Bytes) × (file : Fields) × (file' : Fields) × (left' : Fields) × (alone' : Fields)
    × (add_default_gw_cache_bytes (json (obj current)) (v4 "10.1.1.254" ∷ v6 "fd00::1" ∷ []) ≡ ok b)
    × (delete_default_gw_cache_bytes b true true ≡ ok (json (obj file)))
    × (delete_default_gw_cache_bytes (json (obj current)) true true ≡ ok (json (obj file')))
    × (get "result" file ≡ some (obj left'))
    × (get "result" file' ≡ some (obj alone'))
    × ((k : String) → get k left' ≡ get k alone')
delete-add_default_gw_cache_bytes_example =
    delete-add_default_gw_cache_bytes current result "1.0.0" (items routes) (v4 "10.1.1.254")
      (v6 "fd00::1" ∷ []) current-holds result-IsCurrent

-- A cache of version 0.2.0 with one default route.
abbrev ip4 : Fields
ip4 = field "ip" (str "10.1.1.2/24") (field "routes" (arr (items (route "0.0.0.0/0" ∷ []))) end)

abbrev old_result : Fields
old_result = field "ip4" (obj ip4) end

abbrev cached : Fields
cached = field "kind" (str "cniCacheV1") (field "result" (obj old_result) end)

cached-IsOldDefault : IsOldDefault cached old_result ip4 (items (route "0.0.0.0/0" ∷ []))
unfolding get string_eq
cached-IsOldDefault = record {
  cached = refl;
  versionless = refl;
  no_ip6 = refl;
  has_ip4 = refl;
  lists = refl;
  formed = (tt, tt);
  defaults = refl;
}

add-delete_default_gw_cache_bytes_fails_example :
    (b : Bytes) × (delete_default_gw_cache_bytes (json (obj cached)) true true ≡ ok b)
    × (add_default_gw_cache_bytes b (v4 "10.1.1.254" ∷ []) ≡ err (errorf "wrong ip4 routes format"))
add-delete_default_gw_cache_bytes_fails_example =
    add-delete_default_gw_cache_bytes_fails "10.1.1.254" [] cached-IsOldDefault
