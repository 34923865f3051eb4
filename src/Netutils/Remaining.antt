-- ===== src/Netutils/Remaining.antt =====
-- Which routes a removal leaves, described without the loop that removes them.
use multus_cni.Base.{
  String, ◌≡◌, refl, Bool, true, false, not, Option, none, some, List, [], ◌∷◌, ◌++◌, All, arith,
  ◌==◌, string_eq, if◌then◌else◌,
}
use multus_cni.Base.Result.{ok}
use multus_cni.Json.{Value, null, bool, num, str, nil_slice, arr, obj, texts, get}
use multus_cni.Netutils.Delete.{keep_by_dst, keep_route, delete_default_gw_result_routes, delete_if}

-- A route as libcni writes it: a map whose destination, if it has one, is a text.
abbrev pub IsDst : Option Value → Type 0
IsDst none = Unit
IsDst (some (str s)) = Unit
IsDst (some _) = ⊥

abbrev pub IsRoute : Value → Type 0
IsRoute (obj route) = IsDst (get "dst" route)
IsRoute _ = ⊥

abbrev pub text_of : Option Value → Option String
text_of (some (str s)) = some s
text_of _ = none

-- The destination that a route names.
abbrev pub destination : Value → Option String
destination (obj route) = text_of (get "dst" route)
destination _ = none

-- A removal for one destination keeps the routes that name another one.
abbrev pub names_other : String → Option String → Bool
names_other dst none = false
names_other dst (some d) = not (d == dst)

abbrev pub others : String → List Value → List Value
others dst [] = []
others dst (r ∷ rs) =
    let rest = others dst rs in if names_other dst (destination r) then r ∷ rest else rest

keep_by_dst-IsDst :
    (r : Value) (dst : String) (o : Option Value)
    → IsDst o
    → keep_by_dst r dst o ≡ ok (if names_other dst (text_of o) then r ∷ [] else [])
unfolding keep_by_dst
keep_by_dst-IsDst r dst none h = refl
keep_by_dst-IsDst r dst (some (str s)) h = ground arith
keep_by_dst-IsDst r dst (some null) h = elim h [ ]
keep_by_dst-IsDst r dst (some (bool _)) h = elim h [ ]
keep_by_dst-IsDst r dst (some (num _)) h = elim h [ ]
keep_by_dst-IsDst r dst (some nil_slice) h = elim h [ ]
keep_by_dst-IsDst r dst (some (arr _)) h = elim h [ ]
keep_by_dst-IsDst r dst (some (obj _)) h = elim h [ ]
keep_by_dst-IsDst r dst (some (texts _)) h = elim h [ ]

keep_route-IsRoute :
    (dst : String) (r : Value)
    → IsRoute r
    → keep_route dst r ≡ ok (if names_other dst (destination r) then r ∷ [] else [])
unfolding keep_route
keep_route-IsRoute dst (obj route) h = keep_by_dst-IsDst (obj route) dst (get "dst" route) h
keep_route-IsRoute dst null h = elim h [ ]
keep_route-IsRoute dst (bool _) h = elim h [ ]
keep_route-IsRoute dst (num _) h = elim h [ ]
keep_route-IsRoute dst (str _) h = elim h [ ]
keep_route-IsRoute dst nil_slice h = elim h [ ]
keep_route-IsRoute dst (arr _) h = elim h [ ]
keep_route-IsRoute dst (texts _) h = elim h [ ]

-- On well-formed routes the loop returns, and returns the routes to other destinations in order.
pub delete_default_gw_result_routes-others :
    (routes : List Value) (dst : String)
    → All IsRoute routes
    → delete_default_gw_result_routes routes dst ≡ ok (others dst routes)
unfolding delete_default_gw_result_routes
delete_default_gw_result_routes-others [] dst _ = refl
delete_default_gw_result_routes-others (r ∷ routes) dst (h, hs) =
    rw (keep_route-IsRoute dst r h, delete_default_gw_result_routes-others routes dst hs)
      (ground arith)

pub others-All {κ} :
    (P : Value → Type κ) (dst : String) (routes : List Value)
    → All P routes
    → All P (others dst routes)
others-All P dst [] _ = tt
others-All P dst (r ∷ routes) (h, hs) = ground (arith, others-All P dst routes hs)

abbrev pub others_if : Bool → String → List Value → List Value
others_if true dst routes = others dst routes
others_if false dst routes = routes

-- What is left of the routes by the flags for IPv4 and IPv6.
abbrev pub remaining : Bool → Bool → List Value → List Value
remaining ipv4 ipv6 routes = others_if ipv6 "::0/0" (others_if ipv4 "0.0.0.0/0" routes)

pub delete_if-others_if :
    (on : Bool) (dst : String) (routes : List Value)
    → All IsRoute routes
    → delete_if on dst routes ≡ ok (others_if on dst routes)
unfolding delete_if
delete_if-others_if true dst routes h = delete_default_gw_result_routes-others routes dst h
delete_if-others_if false dst routes h = refl

pub others_if-All {κ} :
    (P : Value → Type κ) (on : Bool) (dst : String) (routes : List Value)
    → All P routes
    → All P (others_if on dst routes)
others_if-All P true dst routes h = others-All P dst routes h
others_if-All P false dst routes h = h

pub others-append :
    (dst : String) (xs ys : List Value) → others dst (xs ++ ys) ≡ others dst xs ++ others dst ys
others-append dst [] ys = refl
others-append dst (x ∷ xs) ys = ground (arith, others-append dst xs ys)
