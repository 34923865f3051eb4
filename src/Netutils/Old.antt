-- ===== src/Netutils/Old.antt =====
-- Results of CNI versions 0.1.0 and 0.2.0, which keep their routes under "ip4" and "ip6".
use mathlib.Core.Option
use multus_cni.Base.{
  String, ◌≡◌, refl, ap, ◌∙◌, true, false, none, some, List, [], ◌∷◌, All, ◌==◌, string_eq,
}
use multus_cni.Base.Result.{ok, err, errorf}
use multus_cni.Json.{
  null, nil_slice, arr, obj, json, Items, Bytes, Fields, get, put, elems, written, written_fields,
}
use multus_cni.Json.Laws.{get-put_self, get-put_ne, get-written_fields}
use multus_cni.Types.{Ip, v4}
use multus_cni.Netutils.Delete.{
  version_format, delete_family020, delete_routes020, delete_default_gw_result, v4_default,
}
use multus_cni.Netutils.Add.{add_to_map020, routes_of, add_default_gw_result}
use multus_cni.Netutils.Cache.{delete_default_gw_cache_bytes, add_default_gw_cache_bytes}
use multus_cni.Netutils.Remaining.{IsRoute, others, delete_default_gw_result_routes-others}

-- A cached result of the old format whose only routes are default routes under "ip4".
pub record IsOldDefault (cached_info result ip4 : Fields) (routes : Items) : Type 0 where
  pub cached : get "result" cached_info ≡ some (obj result)
  pub versionless : get "cniVersion" result ≡ none
  pub no_ip6 : get "ip6" result ≡ none
  pub has_ip4 : get "ip4" result ≡ some (obj ip4)
  pub lists : get "routes" ip4 ≡ some (arr routes)
  pub formed : All IsRoute (elems routes)
  pub defaults : others v4_default (elems routes) ≡ []

-- The result after the removal: the slice of the routes that are left was never appended to.
abbrev emptied : Fields → Fields → Fields
emptied result ip4 = put "ip4" (obj (put "routes" nil_slice ip4)) result

ip6_ne_ip4 : ◌==◌ {A = String} "ip6" "ip4" ≡ false
unfolding string_eq
ip6_ne_ip4 = refl

version_ne_ip4 : ◌==◌ {A = String} "cniVersion" "ip4" ≡ false
unfolding string_eq
version_ne_ip4 = refl

module _ {cached_info result ip4 : Fields} {routes : Items}
    (old : IsOldDefault cached_info result ip4 routes) where
  delete-emptied : delete_default_gw_result result true true ≡ ok (emptied result ip4)
  unfolding delete_default_gw_result
  delete-emptied =
      rw (old.versionless, version_format)
        (rw (old.has_ip4, delete_family020)
          (rw (old.lists, delete_routes020)
            (rw (delete_default_gw_result_routes-others (elems routes) v4_default old.formed) (
              rw old.defaults (
                rw (get-put_ne "ip6" "ip4" (obj (put "routes" nil_slice ip4)) result ip6_ne_ip4)
                  (rw (old.no_ip6, delete_family020)))))))

  written_ip4 :
      get "ip4" (written_fields (emptied result ip4))
      ≡ some (obj (written_fields (put "routes" nil_slice ip4)))
  unfolding written
  written_ip4 =
      get-written_fields "ip4" (emptied result ip4)
      ∙ ap (Option.map written) (get-put_self "ip4" (obj (put "routes" nil_slice ip4)) result)

  written_routes : get "routes" (written_fields (put "routes" nil_slice ip4)) ≡ some null
  unfolding written
  written_routes =
      get-written_fields "routes" (put "routes" nil_slice ip4)
      ∙ ap (Option.map written) (get-put_self "routes" nil_slice ip4)

  written_version : get "cniVersion" (written_fields (emptied result ip4)) ≡ none
  written_version =
      get-written_fields "cniVersion" (emptied result ip4)
      ∙ ap (Option.map written) (
          get-put_ne "cniVersion" "ip4" (obj (put "routes" nil_slice ip4)) result version_ne_ip4
          ∙ old.versionless)

  -- The nil slice was written as null, which is no list when it is read back.
  add-written_fails :
      (g : String) (gw : List Ip)
      → add_default_gw_result (written_fields (emptied result ip4)) (v4 g ∷ gw)
        ≡ err (errorf "wrong ip4 routes format")
  unfolding add_default_gw_result
  add-written_fails g gw =
      rw (written_version, version_format)
        (rw (written_ip4, add_to_map020) (rw (written_routes, routes_of)))

  written_result :
      get "result" (written_fields (put "result" (obj (emptied result ip4)) cached_info))
      ≡ some (obj (written_fields (emptied result ip4)))
  unfolding written
  written_result =
      get-written_fields "result" (put "result" (obj (emptied result ip4)) cached_info)
      ∙ ap (Option.map written) (get-put_self "result" (obj (emptied result ip4)) cached_info)

-- Where the only routes of an old-format cache are IPv4 default routes, removing them succeeds, and
-- adding an IPv4 gateway to the cache that this wrote fails: the emptied list was written as null.
pub add-delete_default_gw_cache_bytes_fails :
    {cached_info result ip4 : Fields} {routes : Items} (g : String) (gw : List Ip)
    → IsOldDefault cached_info result ip4 routes
    → (b : Bytes) × (delete_default_gw_cache_bytes (json (obj cached_info)) true true ≡ ok b)
      × (add_default_gw_cache_bytes b (v4 g ∷ gw) ≡ err (errorf "wrong ip4 routes format"))
unfolding delete_default_gw_cache_bytes add_default_gw_cache_bytes
add-delete_default_gw_cache_bytes_fails {cached_info} {result} {ip4} g gw old = (
  json (obj (written_fields (put "result" (obj (emptied result ip4)) cached_info))),
  rw old.cached (rw (delete-emptied old)),
  rw (written_result old) (rw (add-written_fails old g gw)),
)
