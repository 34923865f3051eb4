-- ===== src/Netutils/Routes.antt =====
-- DeleteDefaultGW and SetDefaultGW: the routing table of the network namespace of a container.
pub mod Table
use multus_cni.Base.{
  String, Bool, true, false, not, ◌&&◌, Option, none, some, List, [], ◌∷◌, ◌++◌, contains, ◌==◌,
  string_eq, if◌then◌else◌,
}
use multus_cni.Base.Result.{Error, wrap, errorf}
use multus_cni.Types.{Ip}

-- netlink.Route: the interface, the destination, which a default route has none of, and the gateway.
pub record Route : Type 0 where
  pub link : String
  pub dst : Option String
  pub gw : Option Ip

-- Package netlink in a namespace: the error of opening it, its interfaces, and the routes that the
-- kernel refuses to remove or to add.
pub record Netlink : Type 0 where
  pub open_error : String → Option Error
  pub links : List String
  pub del_error : Route → Option Error
  pub add_error : Route → Option Error

-- The routes of a namespace, and the error of what has last been done to them.
abbrev pub Edited : Type 0
Edited = Option Error × List Route

unfoldable pub is_default : Route → Bool
is_default r = elim r.dst [ none ↦ true | some _ ↦ false ]

module _ (N : Netlink) where
  -- `netlink.RouteList(link, …)`: an interface that is not found is a nil link, and lists them all.
  unfoldable pub is_listed : String → Route → Bool
  is_listed if_name r = if contains N.links if_name then r.link == if_name else true

  unfoldable pub is_target : String → Route → Bool
  unfolding is_listed is_default
  is_target if_name r = is_listed if_name r && is_default r

  -- Over the table, with the error of the last removal: a removal that succeeds clears it.
  del_routes : String → Option Error → List Route → Edited
  unfolding is_target
  del_routes if_name last [] = (last, [])
  del_routes if_name last (r ∷ routes) = elim (is_target if_name r) [
    | true ↦ elim (N.del_error r) [
      | none ↦ del_routes if_name none routes
      | some e ↦ let (last', left) = del_routes if_name (some e) routes in (last', r ∷ left)
    ]
    | false ↦ let (last', left) = del_routes if_name last routes in (last', r ∷ left)
  ]

  unfoldable pub delete_default_gw : String → String → List Route → Edited
  unfolding del_routes
  delete_default_gw netns if_name routes = elim (N.open_error netns) [
    | some e ↦ (some (wrap "DeleteDefaultGW: Error getting namespace " e), routes)
    | none ↦ del_routes if_name none routes
  ]

  abbrev pub default_route : String → Ip → Route
  default_route if_name gw = record { link = if_name; dst = none; gw = some gw }

  add_routes : String → Option Error → List Ip → List Route → Edited
  add_routes if_name last [] routes = (last, routes)
  add_routes if_name last (gw ∷ gateways) routes = elim (N.add_error (default_route if_name gw)) [
    | none ↦ add_routes if_name none gateways (routes ++ default_route if_name gw ∷ [])
    | some e ↦ add_routes if_name (some e) gateways routes
  ]

  unfoldable pub set_default_gw : String → String → List Ip → List Route → Edited
  unfolding add_routes
  set_default_gw netns if_name gateways routes = elim (N.open_error netns) [
    | some e ↦ (some (wrap "SetDefaultGW: Error getting namespace " e), routes)
    | none ↦
        if contains N.links if_name
        then add_routes if_name none gateways routes
        else (some (errorf "SetDefaultGW: Error getting link Link not found"), routes)
  ]
