-- ===== src/Netutils/Routes/Table.antt =====
-- What the two functions leave in the table where the kernel refuses none of their calls.
use mathlib.Core.List.{append-nil, append_assoc}
use multus_cni.Base.{
  String, ◌≡◌, refl, sym, ◌&&◌, ◌∙◌, ap, inl, inr, Bool, true, none, some, List, [], ◌∷◌, ◌++◌,
  contains, All, ◌==◌, string_eq, if◌then◌else◌, Bool-cases, arith,
}
use multus_cni.Types.{Ip}
use multus_cni.Netutils.Routes.{
  Route, Netlink, is_default, is_listed, is_target, del_routes, delete_default_gw, default_route,
  add_routes, set_default_gw,
}

-- The routes of a table that a test lets through.
abbrev pub without : (Route → Bool) → List Route → List Route
without p [] = []
without p (r ∷ routes) = if p r then without p routes else r ∷ without p routes

without-append :
    (p : Route → Bool) (xs ys : List Route) → without p (xs ++ ys) ≡ without p xs ++ without p ys
without-append p [] ys = refl
without-append p (x ∷ xs) ys = ground (arith, without-append p xs ys)

abbrev pub default_routes : String → List Ip → List Route
default_routes if_name [] = []
default_routes if_name (gw ∷ gateways) =
    record { link = if_name; dst = none; gw = some gw } ∷ default_routes if_name gateways

module _ (N : Netlink) where
  -- The kernel removes each route of a table, and adds a default route for each gateway. It does not
  -- for several gateways of one family, nor for a default route without a gateway.
  pub record IsWilling (netns if_name : String) (gateways : List Ip) (routes : List Route)
      : Type 0 where
    pub opens : N.open_error netns ≡ none
    pub removes : All (λ r. N.del_error r ≡ none) routes
    pub adds : All (λ gw. N.add_error (default_route N if_name gw) ≡ none) gateways

  module _ (netns if_name : String) where
    del_routes-without :
        (routes : List Route)
        → All (λ r. N.del_error r ≡ none) routes
        → del_routes N if_name none routes ≡ (none, without (is_target N if_name) routes)
    unfolding del_routes
    del_routes-without [] _ = refl
    del_routes-without (r ∷ routes) (h₀, hs) = elim (Bool-cases (is_target N if_name r)) [
      | inl h ↦ rw (h, del_routes) (rw h₀ (del_routes-without routes hs))
      | inr h ↦ rw (h, del_routes) (ap (λ x. (x.0, r ∷ x.1)) (del_routes-without routes hs))
    ]

    without-same :
        (p q : Route → Bool)
        → ((r : Route) → p r ≡ q r)
        → (routes : List Route) → without p routes ≡ without q routes
    without-same p q e [] = refl
    without-same p q e (r ∷ routes) = ground (arith, e r, without-same p q e routes)

    delete_default_gw-target :
        (gateways : List Ip) (routes : List Route)
        → IsWilling netns if_name gateways routes
        → delete_default_gw N netns if_name routes ≡ (none, without (is_target N if_name) routes)
    unfolding delete_default_gw
    delete_default_gw-target gateways routes w =
        rw (w.opens, delete_default_gw) (del_routes-without routes w.removes)

    add_routes-append :
        (gateways : List Ip) (routes : List Route)
        → All (λ gw. N.add_error (default_route N if_name gw) ≡ none) gateways
        → add_routes N if_name none gateways routes
          ≡ (none, routes ++ default_routes if_name gateways)
    unfolding add_routes
    add_routes-append [] routes _ = ap (λ r. (none, r)) (sym (append-nil routes))
    add_routes-append (gw ∷ gateways) routes (h, hs) =
        rw (h, add_routes)
          (add_routes-append gateways (routes ++ default_route N if_name gw ∷ []) hs
            ∙ ap (λ r. (none, r))
                (append_assoc routes (default_route N if_name gw ∷ [])
                  (default_routes if_name gateways)))

    -- Where the kernel removes each route of the table and adds the default route of each gateway,
    -- removing the default routes of an interface and setting gateways succeed, and leave the other
    -- routes in order and then one default route of the interface for each gateway. The interface has to
    -- exist.
    pub set-delete_default_gw :
        contains N.links if_name ≡ true
        → (gateways : List Ip) (routes : List Route) → IsWilling netns if_name gateways routes
        → let kept = without (λ r. r.link == if_name && is_default r) routes in
          (delete_default_gw N netns if_name routes ≡ (none, kept))
          × (set_default_gw N netns if_name gateways kept
              ≡ (none, kept ++ default_routes if_name gateways))
    unfolding set_default_gw is_target is_listed
    set-delete_default_gw exists gateways routes w = (
      delete_default_gw-target gateways routes w
          ∙ ap (λ l. (none, l))
              (without-same (is_target N if_name) (λ r. r.link == if_name && is_default r)
                (λ r. rw exists refl) routes),
      rw (w.opens, set_default_gw) (rw exists (add_routes-append gateways _ w.adds)),
    )
