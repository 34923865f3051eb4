-- ===== src/Netutils/Delete.antt =====
-- deleteDefaultGWResult and its helpers: the removal of default routes from a result.
use multus_cni.Base.{
  String, ◌<>◌, Bool, true, false, Option, none, some, List, [], ◌∷◌, ◌++◌, ◌||◌, ◌==◌, string_eq,
  if◌then◌else◌,
}
use multus_cni.Base.Result.{Result, ok, err, errorf, or_err, ◌>>=◌}
use multus_cni.Json.{
  Value, nil_slice, arr, obj, Fields, get, put, delete, items, as_string, as_slice, as_map,
}

-- `dst, ok := route["dst"]`: a route with no destination is dropped.
unfoldable pub keep_by_dst : Value → String → Option Value → Result (List Value)
keep_by_dst r dst_gw none = ok []
keep_by_dst r dst_gw (some v) = do
  dst ← or_err "wrong dst format" (as_string v)
  ok (if dst == dst_gw then [] else r ∷ [])

-- One round of the loop of deleteDefaultGWResultRoutes: what it appends to the new routes.
unfoldable pub keep_route : String → Value → Result (List Value)
unfolding keep_by_dst
keep_route dst_gw r = do
  route ← or_err "wrong route format" (as_map r)
  keep_by_dst r dst_gw (get "dst" route)

unfoldable pub delete_default_gw_result_routes : List Value → String → Result (List Value)
unfolding keep_route
delete_default_gw_result_routes [] dst_gw = ok []
delete_default_gw_result_routes (r ∷ routes) dst_gw = do
  kept ← keep_route dst_gw r
  new_routes ← delete_default_gw_result_routes routes dst_gw
  ok (kept ++ new_routes)

-- A slice that starts nil and is appended to.
abbrev pub slice : List Value → Value
slice [] = nil_slice
slice (v ∷ vs) = arr (items (v ∷ vs))

-- `if ipv4 { routes, err = deleteDefaultGWResultRoutes(routes, dst) }`
unfoldable pub delete_if : Bool → String → List Value → Result (List Value)
delete_if true dst routes = delete_default_gw_result_routes routes dst
delete_if false dst routes = ok routes

abbrev pub v4_default : String
v4_default = "0.0.0.0/0"

abbrev pub v6_default : String
v6_default = "::0/0"

abbrev pub is_old_version : String → Bool
is_old_version v = v == "0.1.0" || v == "0.2.0"

abbrev pub is_supported_version : String → Bool
is_supported_version v = v == "0.3.0" || v == "0.3.1" || v == "0.4.0" || v == "1.0.0"

-- The part of deleteDefaultGWResult020 for "ip4" or "ip6", past the two lookups.
unfoldable pub delete_routes020 : String → String → Fields → Fields → Option Value → Result Fields
delete_routes020 key dst result ip none = ok result
delete_routes020 key dst result ip (some v) = do
  routes ← or_err ("wrong " <> key <> " routes format") (as_slice v)
  new_routes ← delete_default_gw_result_routes routes dst
  ok (put key (obj (put "routes" (slice new_routes) ip)) result)

unfoldable pub delete_family020 : String → String → Fields → Option Value → Result Fields
delete_family020 key dst result none = ok result
delete_family020 key dst result (some v) = do
  ip ← or_err ("wrong " <> key <> " format") (as_map v)
  delete_routes020 key dst result ip (get "routes" ip)

unfoldable pub delete_if020 : Bool → String → String → Fields → Result Fields
unfolding delete_routes020 delete_family020
delete_if020 false key dst result = ok result
delete_if020 true key dst result = delete_family020 key dst result (get key result)

unfoldable pub delete_default_gw_result020 : Fields → Bool → Bool → Result Fields
unfolding delete_if020
delete_default_gw_result020 result ipv4 ipv6 = do
  result' ← delete_if020 ipv4 "ip4" v4_default result
  delete_if020 ipv6 "ip6" v6_default result'

-- `if len(routes) == 0 { delete(result, "routes") } else { result["routes"] = routes }`
unfoldable pub set_routes : Fields → List Value → Fields
set_routes result [] = delete "routes" result
set_routes result (r ∷ routes) = put "routes" (arr (items (r ∷ routes))) result

-- deleteDefaultGWResult past its version checks.
unfoldable pub delete_routes : Fields → Bool → Bool → Option Value → Result Fields
unfolding delete_if set_routes
delete_routes result ipv4 ipv6 none = ok result
delete_routes result ipv4 ipv6 (some v) = do
  routes ← or_err "wrong routes format" (as_slice v)
  routes' ← delete_if ipv4 v4_default routes
  routes'' ← delete_if ipv6 v6_default routes'
  ok (set_routes result routes'')

-- The three ways that a result is processed, by the version that it states.
pub data Format : Type 0 where
  old current : Format

unfoldable pub format_of : String → Result Format
format_of version =
    if is_old_version version
    then ok Format.old
    else if is_supported_version version
    then ok Format.current
    else err (errorf ("not supported version: " <> version))

unfoldable pub version_format : Option Value → Result Format
unfolding format_of
version_format none = ok Format.old
version_format (some v) = do
  version ← or_err "wrong cniVersion format" (as_string v)
  format_of version

unfoldable pub delete_as : Format → Fields → Bool → Bool → Result Fields
unfolding delete_routes delete_default_gw_result020
delete_as Format.old result ipv4 ipv6 = delete_default_gw_result020 result ipv4 ipv6
delete_as Format.current result ipv4 ipv6 = delete_routes result ipv4 ipv6 (get "routes" result)

unfoldable pub delete_default_gw_result : Fields → Bool → Bool → Result Fields
unfolding version_format delete_as
delete_default_gw_result result ipv4 ipv6 = do
  format ← version_format (get "cniVersion" result)
  delete_as format result ipv4 ipv6
