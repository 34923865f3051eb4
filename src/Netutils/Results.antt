-- ===== src/Netutils/Results.antt =====
-- Results of CNI versions 0.3.0 to 1.0.0: what a removal and an addition of default routes leave.
use multus_cni.Base.{
  String, ◌≡◌, Bool, true, Option, none, some, List, [], ◌∷◌, ◌++◌, All, arith, ◌==◌, string_eq,
  if◌then◌else◌, ◌⊎◌, inl, inr,
}
use multus_cni.Base.Result.{ok}
use multus_cni.Json.{Value, str, arr, Items, Fields, get, put, items, elems}
use multus_cni.Json.Laws.{get-put, get-delete}
use multus_cni.Types.{Ip}
use multus_cni.Netutils.Delete.{
  Format, version_format, format_of, is_supported_version, v4_default, v6_default, set_routes,
  delete_routes, delete_default_gw_result,
}
use multus_cni.Netutils.Add.{gateway_routes, routes_of, extended, add_default_gw_result}
use multus_cni.Netutils.Remaining.{IsRoute, remaining, others_if-All, delete_if-others_if}

-- A result that states a version of the current format and lists these routes.
pub record IsCurrent (result : Fields) (version : String) (routes : Items) : Type 0 where
  pub states : get "cniVersion" result ≡ some (str version)
  pub supported : is_supported_version version ≡ true
  pub lists : get "routes" result ≡ some (arr routes)
  pub formed : All IsRoute (elems routes)

supported_cases :
    (version : String)
    → is_supported_version version ≡ true
    → (version ≡ "0.3.0") ⊎ (version ≡ "0.3.1") ⊎ (version ≡ "0.4.0") ⊎ (version ≡ "1.0.0")
supported_cases version h = ground arith

format_of-current :
    (version : String) → is_supported_version version ≡ true → format_of version ≡ ok Format.current
unfolding format_of string_eq
format_of-current version h = elim (supported_cases version h) [
  | inl e ↦ rw e
  | inr (inl e) ↦ rw e
  | inr (inr (inl e)) ↦ rw e
  | inr (inr (inr e)) ↦ rw e
]

-- The value of "routes" for a list of routes: no key at all for the empty list.
abbrev pub listed : List Value → Option Value
listed [] = none
listed (r ∷ routes) = some (arr (items (r ∷ routes)))

pub get-set_routes :
    (k : String) (result : Fields) (routes : List Value)
    → get k (set_routes result routes) ≡ (if k == "routes" then listed routes else get k result)
unfolding set_routes
get-set_routes k result [] = get-delete k "routes" result
get-set_routes k result (r ∷ routes) = get-put k "routes" (arr (items (r ∷ routes))) result

pub delete_default_gw_result-set_routes :
    (result : Fields) (version : String) (routes : Items) (ipv4 ipv6 : Bool)
    → IsCurrent result version routes
    → delete_default_gw_result result ipv4 ipv6
      ≡ ok (set_routes result (remaining ipv4 ipv6 (elems routes)))
unfolding delete_default_gw_result
delete_default_gw_result-set_routes result version routes ipv4 ipv6 c =
    rw (c.states, version_format)
      (rw (format_of-current version c.supported) (
        rw (c.lists, delete_routes)
          (rw (delete_if-others_if ipv4 v4_default (elems routes) c.formed) (
            rw (
              delete_if-others_if ipv6 v6_default _
                (others_if-All IsRoute ipv4 v4_default (elems routes) c.formed))))))

-- Removing default routes from a well-formed result of the current format returns. Every other key
-- keeps its value, and "routes" lists in order the routes that name a destination other than
-- "0.0.0.0/0" for IPv4 and "::0/0" for IPv6, or is gone if none remains. A removal drops a route that
-- names no destination, and keeps one to "::/0".
pub delete_default_gw_result-get :
    (result : Fields) (version : String) (routes : Items) (ipv4 ipv6 : Bool)
    → IsCurrent result version routes
    → (result' : Fields) × (delete_default_gw_result result ipv4 ipv6 ≡ ok result')
      × ((k : String)
          → get k result'
            ≡ (if k == "routes" then listed (remaining ipv4 ipv6 (elems routes)) else get k result))
delete_default_gw_result-get result version routes ipv4 ipv6 c = (
  set_routes result (remaining ipv4 ipv6 (elems routes)),
  delete_default_gw_result-set_routes result version routes ipv4 ipv6 c,
  λ k. get-set_routes k result (remaining ipv4 ipv6 (elems routes)),
)

pub add_default_gw_result-put :
    (result : Fields) (version : String) (routes : Items) (g : Ip) (gw : List Ip)
    → IsCurrent result version routes
    → add_default_gw_result result (g ∷ gw)
      ≡ ok (put "routes" (arr (items (elems routes ++ gateway_routes (g ∷ gw)))) result)
unfolding add_default_gw_result
add_default_gw_result-put result version routes g gw c =
    rw (c.states, version_format)
      (rw (format_of-current version c.supported) (rw (c.lists, routes_of, extended)))
