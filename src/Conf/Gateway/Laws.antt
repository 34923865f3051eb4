-- ===== src/Conf/Gateway/Laws.antt =====
-- Which delegates keep their default routes after the check.
use mathlib.Core.Bool.{false≢true}
use multus_cni.Base.{
  ℕ, ◌+◌, ◌≤◌, ◌<◌, ◌≡◌, refl, ◌⊎◌, inl, inr, ◌↔◌, Bool, true, false, List, [], ◌∷◌, arith, ltb,
  if◌then◌else◌, ◌||◌, Bool-cases,
}
use multus_cni.Base.Result.{ok, err, errorf}
use multus_cni.Types.{Ip, v4, v6, DelegateNetConf}
use multus_cni.Conf.Gateway.{
  gateways, count_v4, count_v6, total, clear_filters, set_filters, set_all_filters,
  check_gateway_config,
}

clear_filters-v4 :
    (gw : List Ip) (f4 f6 : Bool)
    → ((clear_filters gw (f4, f6)).0 ≡ true) ↔ ((f4 ≡ true) × (count_v4 gw ≡ 0))
unfolding clear_filters count_v4
clear_filters-v4 [] f4 f6 = (λ h. (h, refl), λ (h, _). h)
clear_filters-v4 (v4 _ ∷ gw) f4 f6 = (
  λ h. absurd (false≢true ((clear_filters-v4 gw false f6).0 h).0),
  λ (_, e). absurd (omega arith),
)
clear_filters-v4 (v6 _ ∷ gw) f4 f6 = clear_filters-v4 gw f4 false

clear_filters-v6 :
    (gw : List Ip) (f4 f6 : Bool)
    → ((clear_filters gw (f4, f6)).1 ≡ true) ↔ ((f6 ≡ true) × (count_v6 gw ≡ 0))
unfolding clear_filters count_v6
clear_filters-v6 [] f4 f6 = (λ h. (h, refl), λ (h, _). h)
clear_filters-v6 (v6 _ ∷ gw) f4 f6 = (
  λ h. absurd (false≢true ((clear_filters-v6 gw f4 false).0 h).0),
  λ (_, e). absurd (omega arith),
)
clear_filters-v6 (v4 _ ∷ gw) f4 f6 = clear_filters-v6 gw false f6

-- The check changes the two flags of a delegate only, and filters a family exactly if the delegate
-- asks for no gateway of that family.
pub record IsFiltered (d d' : DelegateNetConf) : Type 0 where
  pub rest : d' ≡ record d {
    is_filter_v4_gateway = d'.is_filter_v4_gateway;
    is_filter_v6_gateway = d'.is_filter_v6_gateway;
  }
  pub v4_filter : (d'.is_filter_v4_gateway ≡ true) ↔ (count_v4 (gateways d.gateway_request) ≡ 0)
  pub v6_filter : (d'.is_filter_v6_gateway ≡ true) ↔ (count_v6 (gateways d.gateway_request) ≡ 0)

set_filters-IsFiltered : (d : DelegateNetConf) → IsFiltered d (set_filters d)
unfolding set_filters
set_filters-IsFiltered d =
    let (to4, from4) = clear_filters-v4 (gateways d.gateway_request) true true in
    let (to6, from6) = clear_filters-v6 (gateways d.gateway_request) true true in
    record {
      rest = refl;
      v4_filter = (λ h. (to4 h).1, λ e. from4 (refl, e));
      v6_filter = (λ h. (to6 h).1, λ e. from6 (refl, e));
    }

-- Two lists of delegates, one after the other.
abbrev pub AllFiltered : List DelegateNetConf → List DelegateNetConf → Type 0
AllFiltered [] [] = Unit
AllFiltered (d ∷ ds) (d' ∷ ds') = IsFiltered d d' × AllFiltered ds ds'
AllFiltered _ _ = ⊥

set_all_filters-AllFiltered : (ds : List DelegateNetConf) → AllFiltered ds (set_all_filters ds)
set_all_filters-AllFiltered [] = tt
set_all_filters-AllFiltered (d ∷ ds) = (set_filters-IsFiltered d, set_all_filters-AllFiltered ds)

-- How many delegates keep the default routes that their plugins made.
abbrev pub unfiltered : (DelegateNetConf → Bool) → List DelegateNetConf → ℕ
unfiltered flag [] = 0
unfiltered flag (d ∷ ds) = (if flag d then 0 else 1) + unfiltered flag ds

unfiltered-le_total :
    (flag : DelegateNetConf → Bool) (count : List Ip → ℕ)
    → ((d : DelegateNetConf) → count (gateways d.gateway_request) ≡ 0 → flag (set_filters d) ≡ true)
    → (ds : List DelegateNetConf) → unfiltered flag (set_all_filters ds) ≤ total count ds
unfolding total
unfiltered-le_total flag count filters [] = omega arith
unfiltered-le_total flag count filters (d ∷ ds) =
    ground (arith, filters d, unfiltered-le_total flag count filters ds)

unfiltered_v4-le_total :
    (ds : List DelegateNetConf)
    → unfiltered (λ d. d.is_filter_v4_gateway) (set_all_filters ds) ≤ total count_v4 ds
unfiltered_v4-le_total =
    unfiltered-le_total (λ d. d.is_filter_v4_gateway) count_v4
      (λ d. (set_filters-IsFiltered d).v4_filter.1)

unfiltered_v6-le_total :
    (ds : List DelegateNetConf)
    → unfiltered (λ d. d.is_filter_v6_gateway) (set_all_filters ds) ≤ total count_v6 ds
unfiltered_v6-le_total =
    unfiltered-le_total (λ d. d.is_filter_v6_gateway) count_v6
      (λ d. (set_filters-IsFiltered d).v6_filter.1)

-- The check fails exactly if the delegates together ask for more than one gateway of a family.
-- Otherwise it filters each delegate for the families that the delegate asks no gateway of, and at
-- most one delegate is left unfiltered in each family.
pub check_gateway_config_lem :
    (ds : List DelegateNetConf)
    → ((1 < total count_v4 ds) ⊎ (1 < total count_v6 ds))
        × (check_gateway_config ds ≡ err (errorf "multus does not support ECMP for default-route"))
      ⊎ (total count_v4 ds ≤ 1)
        × (total count_v6 ds ≤ 1)
        × (ds' : List DelegateNetConf) × (check_gateway_config ds ≡ ok ds')
        × AllFiltered ds ds'
        × (unfiltered (λ d. d.is_filter_v4_gateway) ds' ≤ 1)
        × (unfiltered (λ d. d.is_filter_v6_gateway) ds' ≤ 1)
unfolding check_gateway_config
check_gateway_config_lem ds =
    elim (Bool-cases (ltb 1 (total count_v4 ds) || ltb 1 (total count_v6 ds))) [
      | inl many ↦ inl (ground arith, rw many)
      | inr few ↦ inr (
        ground arith,
        ground arith,
        set_all_filters ds,
        rw few,
        set_all_filters-AllFiltered ds,
        ground (arith, unfiltered_v4-le_total ds),
        ground (arith, unfiltered_v6-le_total ds),
      )
    ]
