-- ===== src/Conf/Gateway.antt =====
-- CheckGatewayConfig, and the namespace test of the configuration.
pub mod Laws
use multus_cni.Base.{
  ℕ, ◌+◌, Bool, true, false, ◌&&◌, ◌||◌, Option, none, some, List, [], ◌∷◌, ltb, String, ◌==◌,
  string_eq, if◌then◌else◌,
}
use multus_cni.Base.Result.{Result, ok, err, errorf}
use multus_cni.Types.{Ip, v4, v6, DelegateNetConf}

-- `gw.To4() != nil`
abbrev pub is_v4 : Ip → Bool
is_v4 (v4 _) = true
is_v4 (v6 _) = false

abbrev pub gateways : Option (List Ip) → List Ip
gateways none = []
gateways (some gw) = gw

-- The two counters over the gateways of a delegate.
unfoldable pub count_v4 : List Ip → ℕ
count_v4 [] = 0
count_v4 (v4 _ ∷ gw) = count_v4 gw + 1
count_v4 (v6 _ ∷ gw) = count_v4 gw

unfoldable pub count_v6 : List Ip → ℕ
count_v6 [] = 0
count_v6 (v4 _ ∷ gw) = count_v6 gw
count_v6 (v6 _ ∷ gw) = count_v6 gw + 1

unfoldable pub total : (List Ip → ℕ) → List DelegateNetConf → ℕ
total count [] = 0
total count (d ∷ delegates) = count (gateways d.gateway_request) + total count delegates

-- The inner loop of the second pass, over both flags.
clear_filters : List Ip → Bool × Bool → Bool × Bool
clear_filters [] flags = flags
clear_filters (v4 _ ∷ gw) (f4, f6) = clear_filters gw (false, f6)
clear_filters (v6 _ ∷ gw) (f4, f6) = clear_filters gw (f4, false)

unfoldable pub set_filters : DelegateNetConf → DelegateNetConf
unfolding clear_filters
set_filters d =
    let (f4, f6) = clear_filters (gateways d.gateway_request) (true, true) in
    record d { is_filter_v4_gateway = f4; is_filter_v6_gateway = f6 }

abbrev pub set_all_filters : List DelegateNetConf → List DelegateNetConf
set_all_filters [] = []
set_all_filters (d ∷ delegates) = set_filters d ∷ set_all_filters delegates

unfoldable pub check_gateway_config : List DelegateNetConf → Result (List DelegateNetConf)
unfolding total set_filters
check_gateway_config delegates =
    if ltb 1 (total count_v4 delegates) || ltb 1 (total count_v6 delegates)
    then err (errorf "multus does not support ECMP for default-route")
    else ok (set_all_filters delegates)

unfoldable pub check_system_namespaces : String → List String → Bool
check_system_namespaces namespace [] = false
check_system_namespaces namespace (nsname ∷ system_namespaces) =
    let rest = check_system_namespaces namespace system_namespaces in
    if namespace == nsname then true else rest
