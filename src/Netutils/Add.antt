-- ===== src/Netutils/Add.antt =====
-- addDefaultGWResult and its helpers: the addition of default routes to a result.
use multus_cni.Base.{String, ◌<>◌, Option, none, some, List, [], ◌∷◌, ◌++◌}
use multus_cni.Base.Result.{Result, ok, or_err, ◌>>=◌}
use multus_cni.Json.{Value, arr, obj, texts, nil, Fields, get, put, items, as_slice, as_map}
use multus_cni.Types.{Ip, v4, v6}
use multus_cni.Netutils.Delete.{Format, version_format, v4_default, v6_default}

-- The map[string]string of a new route.
unfoldable pub route_to : String → String → Value
route_to dst gw = texts (("dst", dst) ∷ ("gw", gw) ∷ [])

unfoldable pub gateway_route : Ip → Value
unfolding route_to
gateway_route (v4 gw) = route_to v4_default gw
gateway_route (v6 gw) = route_to v6_default gw

abbrev pub gateway_routes : List Ip → List Value
gateway_routes [] = []
gateway_routes (g ∷ gw) = gateway_route g ∷ gateway_routes gw

-- `routes := []interface{}{}`, replaced by the value of "routes" where there is one.
unfoldable pub routes_of : String → Option Value → Result (List Value)
routes_of what none = ok []
routes_of what (some v) = or_err what (as_slice v)

-- addDefaultGWResult020: one gateway, into the map at `key`.
unfoldable pub add_to_map020 : String → String → String → Fields → Option Value → Result Fields
add_to_map020 key dst gw result none = ok result
add_to_map020 key dst gw result (some v) = do
  ip ← or_err ("wrong " <> key <> " format") (as_map v)
  routes ← routes_of ("wrong " <> key <> " routes format") (get "routes" ip)
  ok (put key (obj (put "routes" (arr (items (routes ++ route_to dst gw ∷ []))) ip)) result)

-- Here the destination of an IPv6 route is written "::/0".
unfoldable pub add_gateway020 : Fields → Ip → Result Fields
unfolding add_to_map020 routes_of route_to
add_gateway020 result (v4 gw) = add_to_map020 "ip4" "0.0.0.0/0" gw result (get "ip4" result)
add_gateway020 result (v6 gw) = add_to_map020 "ip6" "::/0" gw result (get "ip6" result)

unfoldable pub add_default_gw_result020 : Fields → List Ip → Result Fields
unfolding add_gateway020
add_default_gw_result020 result [] = ok result
add_default_gw_result020 result (g ∷ gw) = do
  result' ← add_gateway020 result g
  add_default_gw_result020 result' gw

-- With no gateway to add the slice stays as it was read.
unfoldable pub extended : Option Value → List Value → List Ip → Value
extended none routes [] = arr nil
extended (some v) routes [] = v
extended old routes (g ∷ gw) = arr (items (routes ++ gateway_routes (g ∷ gw)))

unfoldable pub add_as : Format → Fields → List Ip → Result Fields
unfolding add_default_gw_result020 routes_of extended gateway_route
add_as Format.old result gw = add_default_gw_result020 result gw
add_as Format.current result gw = do
  routes ← routes_of "wrong routes format" (get "routes" result)
  ok (put "routes" (extended (get "routes" result) routes gw) result)

unfoldable pub add_default_gw_result : Fields → List Ip → Result Fields
unfolding version_format add_as
add_default_gw_result result gw = do
  format ← version_format (get "cniVersion" result)
  add_as format result gw
